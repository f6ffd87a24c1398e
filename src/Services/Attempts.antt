-- ===== src/Services/Attempts.antt =====
-- The bound on wrong passwords of nick_identify (src/modules/m_nick.c).
use child.Prelude.{
  ℕ, zero, suc, ◌+◌, ◌≤◌, ◌≡◌, refl, true, false, Option, some, arith, ==_iff, ◌==◌, ltb, leb,
}
use child.Prelude.Int.{pos}
use child.Prelude.Maybe.{◌>>=◌}
use child.Notices.{wrong_password}
use child.Registry.{Registry, Nick, notice, send, put}
use child.Services.{notice_to_user}
use child.Services.Identify.{wrong_attempt}

-- Wrong passwords one after the other, in the same minute.
abbrev pub wrong_attempts : (Registry → ℕ) → ℕ → Registry → ℕ → Option Registry
wrong_attempts malloc zero r nptr = some r
wrong_attempts malloc (suc n) r nptr = do
  next ← wrong_attempt malloc r nptr
  wrong_attempts malloc n next nptr

-- A nick whose count is at the bound and whose count began a minute ago at least.
pub record IsLate (r : Registry) (nptr : ℕ) (nick : Nick) : Type 0 where
  pub bound : ℕ
  pub max : r.config.maxloginatt ≡ pos bound
  pub here : r.nick_at nptr ≡ some nick
  pub many : bound ≤ nick.loginattempts + 1
  pub counting : 1 ≤ nick.lasttry
  pub late : nick.lasttry + 60 ≤ r.now

-- The registry after an attempt that only counts.
abbrev kept : Registry → ℕ → Nick → Registry
kept r nptr nick = record (send (notice r.config.nick nick.name wrong_password) r) {
  nick_at = put r.nick_at nptr (some (record nick { loginattempts = nick.loginattempts + 1 }));
}

wrong_attempt-kept :
    (malloc : Registry → ℕ) (r : Registry) (nptr : ℕ) (nick : Nick)
    → IsLate r nptr nick
    → wrong_attempt malloc r nptr ≡ some (kept r nptr nick)
unfolding wrong_attempt notice_to_user
wrong_attempt-kept malloc r nptr nick l =
    let none_first : (nick.lasttry == 0) ≡ false = ground (arith, l.counting) in
    let many : leb l.bound (nick.loginattempts + 1) ≡ true = ground (arith, l.many) in
    let late : ltb r.now (nick.lasttry + 60) ≡ false = ground (arith, l.late) in
    rw (l.here, l.here, none_first, l.max) (ground arith)

put_self : {A : Type 0} (heap : ℕ → Option A) (a : ℕ) (v : Option A) → put heap a v a ≡ v
put_self heap a v = rw ((==_iff a a).1 refl) refl

kept-IsLate :
    (r : Registry) (nptr : ℕ) (nick : Nick)
    → IsLate r nptr nick
    → IsLate (kept r nptr nick) nptr (record nick { loginattempts = nick.loginattempts + 1 })
kept-IsLate r nptr nick l = record {
  bound = l.bound;
  max = l.max;
  here = put_self r.nick_at nptr (some (record nick { loginattempts = nick.loginattempts + 1 }));
  many = omega (arith, l.many);
  counting = l.counting;
  late = l.late;
}

-- Once a count of wrong passwords has reached the bound later than a minute after it began, any number
-- of further wrong passwords is only counted: the nick is not killed, and the count does not begin
-- anew.
pub wrong_attempts-counted :
    (malloc : Registry → ℕ) (n : ℕ) (r : Registry) (nptr : ℕ) (nick : Nick)
    → IsLate r nptr nick
    → (r' : Registry) × (wrong_attempts malloc n r nptr ≡ some r')
      × (r'.nick_at nptr ≡ some (record nick { loginattempts = nick.loginattempts + n }))
      × (r'.nicks ≡ r.nicks)
wrong_attempts-counted malloc zero r nptr nick l =
    let same : nick.loginattempts + 0 ≡ nick.loginattempts = omega arith in
    (r, refl, rw same l.here, refl)
wrong_attempts-counted malloc (suc n) r nptr nick l =
    let next : Nick = record nick { loginattempts = nick.loginattempts + 1 } in
    let sum : nick.loginattempts + 1 + n ≡ nick.loginattempts + suc n = omega arith in
    let (r', ends, at, same) =
      wrong_attempts-counted malloc n (kept r nptr nick) nptr next (kept-IsLate r nptr nick l) in
    (r', rw (wrong_attempt-kept malloc r nptr nick l) ends, rw (← sum) at, same)
