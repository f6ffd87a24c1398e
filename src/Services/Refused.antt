-- ===== src/Services/Refused.antt =====
-- The commands on a channel of one who has no right for them (src/modules/m_chan.c).
use child.Prelude.{
  ℕ, ◌≡◌, refl, Bool, false, Bool-cases, inl, inr, Option, none, some, [], ◌∷◌, ◌==◌,
}
use child.Strings.{Str, separate_word?}
use child.Notices.{Notice, access_denied}
use child.Registry.{Registry}
use child.Services.{notice_to_user}
use child.Services.Rights.{Right, has_right, guarded, if_registered, on_channel}
use child.Services.Status.{chan_status, status_of}

-- A notice to the caller is all that comes of a command.
abbrev pub OnlyNotice : Registry → ℕ → Option Registry → Type 0
OnlyNotice r nptr result = (text : Notice) × (result ≡ notice_to_user r nptr text)

pub guarded-refused :
    (can : Right) (refusal : Notice) (r : Registry) (fuel nptr : ℕ) (uptr : Option ℕ) (chptr : ℕ)
    (act : Option Registry)
    → has_right can r fuel uptr chptr ≡ some false
    → guarded can refusal r fuel nptr uptr chptr act ≡ notice_to_user r nptr refusal
unfolding guarded
guarded-refused can refusal r fuel nptr uptr chptr act h = rw h refl

-- A command behind the tests of the name, of the channel and of a right.
pub on_channel-refused :
    (can : Right) (syntax refusal : Notice) (r : Registry) (fuel nptr : ℕ) (uptr : Option ℕ)
    (chptr : ℕ) (arg3 : Option Str) (act : Str → ℕ → Option Registry)
    → has_right can r fuel uptr chptr ≡ some false
    → OnlyNotice r nptr (
        on_channel syntax r nptr
          (some chptr)
          arg3
          (λ name c. guarded can refusal r fuel nptr uptr c (act name c)))
unfolding on_channel if_registered
on_channel-refused can syntax refusal r fuel nptr uptr chptr none act h = (syntax, refl)
on_channel-refused can syntax refusal r fuel nptr uptr chptr (some []) act h = (syntax, refl)
on_channel-refused can syntax refusal r fuel nptr uptr chptr (some (c ∷ name)) act h =
    elim (Bool-cases (c == b'#')) [
      | inl e ↦ (
        refusal,
        rw e (guarded-refused can refusal r fuel nptr uptr chptr (act (c ∷ name) chptr) h),
      )
      | inr n ↦ (syntax, rw n refl)
    ]

-- What the six commands of statuses do for one without the right.
pub chan_status-refused :
    (can : Right) (others : Option Right) (syntax : Notice) (flag : ℕ) (what : Bool) (r : Registry)
    (fuel nptr : ℕ) (uptr : Option ℕ) (chptr : ℕ) (all : Option Str)
    → has_right can r fuel uptr chptr ≡ some false
    → OnlyNotice r nptr (chan_status can others syntax flag what r fuel nptr uptr (some chptr) all)
unfolding chan_status
chan_status-refused can others syntax flag what r fuel nptr uptr chptr all h =
    let (arg3, rest) = separate_word? all in
    let (arg4, _) = separate_word? rest in
    on_channel-refused can syntax access_denied r fuel nptr uptr chptr arg3
      (λ name c. status_of others r fuel nptr uptr c name flag what arg4) h
