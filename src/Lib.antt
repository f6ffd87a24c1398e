-- ===== src/Lib.antt =====
-- Child, the IRC services daemon of this repository: the tables, registries, access rights and texts
-- that its commands and its server protocol stand on.
--
-- The daemon keeps every user account, nick, channel and link in hash maps of one kind
-- (src/hashmap.c) under names compared without case (src/core.c). An account has access entries,
-- which also stand on a list of the channel; a nick has memberships, which also stand on a list of
-- the channel on the network. The ChannelCan functions of src/channel.c decide what an account may do
-- from its entry, its channel's options and levels, and the entries of the accounts it is linked to.
-- Accounts, entries, members, limits and timebans are made, deleted and synchronised by src/user.c,
-- src/nick.c and src/channel.c. Texts of commands and of queries go through src/string_utils.c.
--
--   Prelude: the names shared, signed integers, laws of bits, chains of Option.
--   Llist: the pointer rings of src/llist.h; Ring, Refine: that they are the lists of addresses of the
--   other parts.
--   Hashmap: src/hashmap.c and src/hashmap.h. Entries, Descriptor: nodes and the functions given to
--   a table; Chain, Placement: where the entries stand, and the invariant; Preserve: the operations
--   on it; Dictionary, Lookup, Erase: insertion, lookup and erasure as those of an ordered dictionary.
--   Strings: src/string_utils.c; Words (SeperateWord), Sql (strtosql), Case (strcasecmp), Copy
--   (strncpy), Masks (IsMask and match_mask of src/user.c).
--   Core: the hash and the comparison of names, src/core.c and src/hashmap.h.
--   Uflags: the flags of access entries, src/channel.h, parse_uflags, get_uflags_string and
--   GetUFlagsFromLevel of src/channel.c; Text and Levels.
--   Registry: struct core and the objects, with the searches find_*; Reads: when a search is safe.
--   Access: GetFlag, IsFounder, IsTrueOwner; Rights: ChannelCanOp and its like; Acl:
--   ChannelCanReadACL, ChannelCanWriteACL, ChannelCanOverride, can_modify_uflag; Follow, Total,
--   Ranks, Hierarchy: their theorems.
--   Channels: access entries and channels; Members: AddUserToWchan, KickUser, SetStatus and the
--   like; Limits, Timebans: the timed limits and bans. All of src/channel.c.
--   In Channels, Balance counts how often an object stands on a list; Linked, Parted, Drop, Stale:
--   access entries; Joined, Leave, Enter: members.
--   Accounts: accounts, guests, links, login and userdrop of src/user.c; Nicks: src/nick.c, with Clones; Sync:
--   sync_cflag and what uses it; Resync: acl_resync.
--   In Accounts, Network: the registries of a network as one invariant; Quit: userquit keeps it.
--   Net: the buffers of src/net.c and the loop of src/child.c that reads lines; Lines, Framed: which
--   lines are read; Chunk: the room for them; Sendq: what is written.
--   Servers: src/server.c.
--   Protocol: parse_line of src/parseline.c and RunHooks of src/modules.c; Uplink (m_ping, m_sid, m_server, m_squit), Identity (m_chghost, m_chgident,
--   m_sethost, m_setident, m_quit), Rooms (m_part, m_kick, m_topic, m_stopic, m_eos), Renames
--   (m_nick), Umodes (m_umode): the handlers; Kept: what they keep, one by one; Leaving: sequences of
--   lines; Renamed: the table of nicks after m_nick.
--   In Protocol, Flood and Privmsg (m_privmsg), Uids (m_uid), Locks, Modes and Chanmodes (m_mode), Joins
--   (m_join), Sjoin (m_sjoin, m_sasl): the handlers that let nicks, members and commands in; Bound:
--   messages one after the other; Faults: modes of a nick that is not there; Tokens: strtok and the
--   members of a SJOIN line; Heard: that a nick is heard again; Signs: modes behind signs; Enforced: the
--   lock of a channel and what is sent for it.
--   Accounts/Passwords: check_user_password and set_user_password; Accounts/Verify: what they accept.
--   Notices: the texts of the notices, one constructor for each format.
--   Services: the user commands of src/modules/m_nick.c and src/modules/m_chan.c. Rights: what most
--   commands on a channel ask first; Status, Options, Chans, Upkeep, Kicks, Suspend, Flags, Levels and
--   Chanaccess: the commands on channels; Nicks, Identify, Settings: those on nicks; Authorised: which
--   command's function runs; Refused, Stranger: what one without a right can do; Granted, Lower: who
--   changes flags and levels; Attempts: wrong passwords one after the other.
--   Commands: src/commands.c; Lookup, Level.
--   Trust: src/trust.c and match_ipmask of src/net.c; Mask.
--   Tests: the theorems at concrete inputs.
--
-- An object stands at an address of a heap; a freed address holds none, and a read through it makes
-- the call `none`. `malloc` is a parameter. A nil pointer is `none`. What send_raw sends is a list of
-- messages, one constructor for each format. A recursion along links has fuel, since the code does
-- not stop on a cycle of links: `rank u < fuel` is enough, for a rank that falls along each link.
-- hashmap_flush has one round more than the table has entries, the loop that reads lines one for each
-- byte of the buffer, acl_resync one for each member, and the detaching of a server one for each level
-- of the tree of servers. What a socket gives and takes, and what the loaded modules do in a hook, are
-- arguments.
--
-- A command of a channel is a function of the registry, the fuel for links, the caller with his account,
-- the channel and the rest of the line. The hashing of passwords, random strings, the mail, regular
-- expressions, atoi, strtol, decode_ip and what the function of a command does are arguments.
--
-- A name of 1024 bytes or more aborts in its hash. That is `none` where `unless_aborted` stands: in the
-- handlers of lines that search a channel or rename a nick. The other searches are by the names of
-- objects, or by words of a message.
--
-- Counters that are ints of C, such as that of wrong passwords, have no bound here, a count of clones
-- stops at 0, and the shift of match_ipmask by 31 is taken as 2 ^ 31.
--
-- Not modelled: sockets, the database, the loading of modules, configuration and log files are input
-- and output. Of src/parseline.c the handlers m_kill and m_protoctl are left; of src/modules/m_chan.c
-- chan_info, chan_banlist and the commands on bots; of
-- src/modules/m_nick.c nick_info, nick_set_timeout and nick_set_master; and the other modules.
pub mod Prelude
pub mod Llist
pub mod Hashmap
pub mod Strings
pub mod Core
pub mod Uflags
pub mod Notices
pub mod Registry
pub mod Access
pub mod Channels
pub mod Accounts
pub mod Net
pub mod Servers
pub mod Protocol
pub mod Commands
pub mod Trust
pub mod Services
mod Tests
