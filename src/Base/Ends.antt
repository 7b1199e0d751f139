-- ===== src/Base/Ends.antt =====
-- Outcomes other than the end of the model's fuel.
use mathlib.Core.Path.{◌≡◌, refl}
use mathlib.Core.Logic.{◌≢◌}
use mathlib.Core.Bool.{Bool, true, false}
use jullia_lp_staking.Base.Tests.{if◌then◌else◌}
use jullia_lp_staking.Base.Results.{Result, ok, err, Failure, panic, out_of_fuel, ◌>>=◌}

pub record Ends {A : Type 0} (r : Result A) : Type 0 where
  pub ends : r ≢ err out_of_fuel

module _ {A B : Type 0} where
  pub Ends-bind :
      (m : Result A) (f : A → Result B)
      → Ends m
      → ((a : A) → m ≡ ok a → Ends (f a))
      → Ends (m >>= f)
  Ends-bind (ok a) f h k = k a refl
  Ends-bind (err e) f h k = record { ends = λ p. h.ends (cc) }

module _ {A : Type 0} where
  pub Ends-ok : (a : A) → Ends (ok a)
  Ends-ok a = record { ends = λ p. cc }

  pub Ends-if : (b : Bool) (m n : Result A) → Ends m → Ends n → Ends (if b then m else n)
  Ends-if true m n hm hn = hm
  Ends-if false m n hm hn = hn

  pub Ends-of_panic : (m : Result A) → ((e : Failure) → m ≡ err e → e ≡ panic) → Ends m
  Ends-of_panic (ok a) h = Ends-ok a
  Ends-of_panic (err e) h = record { ends = λ p. cc (h e refl, p) }

module _ {A S : Type 0} where
  pub Ends-if_at :
      (b : Bool) (m n : S → Result A) (s : S)
      → Ends (m s)
      → Ends (n s)
      → Ends ((if b then m else n) s)
  Ends-if_at true m n s hm hn = hm
  Ends-if_at false m n s hm hn = hn
