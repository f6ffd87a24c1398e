-- ===== src/Servers.antt =====
-- The tree of servers: find_server, add_server, delete_server and detach_server_recursive
-- (src/server.c). What is logged is left out.
use child.Prelude.{ℕ, zero, suc, Option, none, some, List, [], ◌∷◌, ◌++◌, ◌||◌, if◌then◌else◌}
use child.Prelude.Maybe.{◌>>=◌}
use child.Strings.{Str, strncpy, str_eq}
use child.Registry.{Registry, Heap, Server, put, remove}
use child.Accounts.Nicks.{userquit}

abbrev pub servernamelen : ℕ
servernamelen = 64

abbrev pub sidlen : ℕ
sidlen = 3

-- The loop of find_server over the servers.
unfoldable pub find_server_in : Heap Server → Option Str → List ℕ → Option (Option ℕ)
find_server_in heap name_or_sid [] = some none
find_server_in heap name_or_sid (a ∷ as') =
    let later = find_server_in heap name_or_sid as' in
    do
      tmp ← heap a
      if str_eq (some tmp.name) name_or_sid || str_eq (some tmp.sid) name_or_sid
          then some (some a)
          else later

unfoldable pub find_server : Registry → Option Str → Option (Option ℕ)
unfolding find_server_in
find_server r name_or_sid = find_server_in r.server_at name_or_sid r.servers

-- LLIST_INSERT_TAIL on the leafs of the hub.
unfoldable pub add_leaf : Registry → ℕ → Option ℕ → Option Registry
add_leaf r a none = some r
add_leaf r a (some h) = do
  hub ← r.server_at h
  some (record r {
    server_at = put r.server_at h (some (record hub { leafs = hub.leafs ++ a ∷ [] }));
  })

-- add_server at the address that malloc returned.
unfoldable pub insert_server :
    Registry → Str → Str → Option ℕ → Option ℕ → Option (Option ℕ × Registry)
unfolding add_leaf
insert_server r name sid hub none = some (none, r)
insert_server r name sid hub (some a) = do
  let server : Server = record {
    name = strncpy servernamelen name;
    sid = strncpy sidlen sid;
    nicks = [];
    leafs = [];
    hub = hub;
  }
  let inserted : Registry = record r {
    servers = r.servers ++ a ∷ [];
    server_at = put r.server_at a (some server);
  }
  linked ← add_leaf inserted a hub
  some (some a, linked)

-- add_server tests what malloc returns, so that `malloc` may refuse here.
unfoldable pub add_server :
    (Registry → Option ℕ) → Registry → Str → Str → Option ℕ → Option (Option ℕ × Registry)
unfolding insert_server
add_server malloc r name sid hub = insert_server r name sid hub (malloc r)

-- LLIST_REMOVE of the node on the leafs of its hub.
unfoldable pub off_hub : Registry → ℕ → Option ℕ → Option Registry
off_hub r a none = some r
off_hub r a (some h) = do
  hub ← r.server_at h
  some (record r {
    server_at = put r.server_at h (some (record hub { leafs = remove a hub.leafs }));
  })

unfoldable pub delete_server : Registry → ℕ → Option Registry
unfolding off_hub
delete_server r a = do
  server ← r.server_at a
  off ← off_hub (record r { servers = remove a r.servers }) a server.hub
  some (record off { server_at = put off.server_at a none })

-- The loop of detach_server_recursive over the nicks of the server.
unfoldable pub quit_nicks : (Registry → ℕ) → Registry → List ℕ → Option Registry
quit_nicks malloc r [] = some r
quit_nicks malloc r (a ∷ as') = do
  nick ← r.nick_at a
  quit ← userquit malloc r nick.name
  quit_nicks malloc quit as'

-- The loop over the leafs, for what is done with each.
unfoldable pub each_leaf : (Registry → ℕ → Option Registry) → Registry → List ℕ → Option Registry
each_leaf detach r [] = some r
each_leaf detach r (a ∷ as') = do detached ← detach r a; each_leaf detach detached as'

-- detach_server_recursive; the fuel bounds the depth of the tree.
unfoldable pub detach_server_recursive : (Registry → ℕ) → ℕ → Registry → ℕ → Option Registry
unfolding quit_nicks each_leaf delete_server
detach_server_recursive malloc zero r a = none
detach_server_recursive malloc (suc fuel) r a = do
  server ← r.server_at a
  quit ← quit_nicks malloc r server.nicks
  left ← quit.server_at a
  detached ← each_leaf (detach_server_recursive malloc fuel) quit left.leafs
  delete_server detached a
