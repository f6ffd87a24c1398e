-- ===== src/Services/Rights.antt =====
-- What most user commands on a channel begin with (src/modules/m_chan.c): the test of the name, of the
-- channel and of the caller's right.
use child.Prelude.{ℕ, Bool, true, ◌==◌, Option, none, some, ◌∷◌, if◌then◌else◌}
use child.Prelude.Maybe.{◌>>=◌}
use child.Strings.{Str}
use child.Notices.{Notice, chan_unknown}
use child.Registry.{Registry}
use child.Access.{is_founder}
use child.Services.{notice_to_user}

-- A ChannelCan function, with the fuel for links, of a user and a channel.
abbrev pub Right : Type 0
Right = Registry → ℕ → Option ℕ → Option ℕ → Option Bool

-- `ChannelCan...(uptr, chptr) || IsFounder(uptr, chptr)`
unfoldable pub has_right : Right → Registry → ℕ → Option ℕ → ℕ → Option Bool
has_right can r fuel uptr chptr = do
  may ← can r fuel uptr (some chptr)
  let founder : Option Bool = is_founder r fuel uptr (some chptr)
  if may then some true else founder

-- A step that only one who has a right takes; others are told so.
unfoldable pub guarded :
    Right → Notice → Registry → ℕ → ℕ → Option ℕ → ℕ → Option Registry → Option Registry
unfolding has_right notice_to_user
guarded can refusal r fuel nptr uptr chptr act = do
  may ← has_right can r fuel uptr chptr
  let refused : Option Registry = notice_to_user r nptr refusal
  if may then act else refused

-- `if (!chptr)`
unfoldable pub if_registered :
    Registry → ℕ → Notice → Option ℕ → (ℕ → Option Registry) → Option Registry
unfolding notice_to_user
if_registered r nptr unknown none act = notice_to_user r nptr unknown
if_registered r nptr unknown (some chptr) act = act chptr

-- `if (!arg3 || *arg3 == '\0' || *arg3 != '#')` and `if (!chptr)`.
unfoldable pub on_channel :
    Notice → Registry → ℕ → Option ℕ → Option Str → (Str → ℕ → Option Registry) → Option Registry
unfolding notice_to_user if_registered
on_channel syntax r nptr chptr (some (c ∷ name)) act =
    let known : Option Registry = if_registered r nptr chan_unknown chptr (act (c ∷ name)) in
    let misused : Option Registry = notice_to_user r nptr syntax in
    if c == b'#' then known else misused
on_channel syntax r nptr chptr _ act = notice_to_user r nptr syntax
