-- ===== src/Controller/Exec/Keeps.antt =====
-- What an action keeps of the state: a property that holds before holds afterwards, whatever the
-- action returns.
use k8s_operator_hermes_agen.Common.{◌≡◌, refl, Bool, true, false, Result, ok, err, if◌then◌else◌}
use k8s_operator_hermes_agen.Controller.Exec.{Error, Exec, attempt, resume, ◌>>=◌, raise}

module _ {S : Type 0} (P : S → Type 0) where
  abbrev pub Keeps : {A : Type 0} → Exec S A → Type 0
  Keeps m = (s : S) → P s → P (m s).1

  pub resume-Keeps :
      {A B : Type 0}
      → (failed : Error → Exec S B) → (rest : A → Exec S B) → (r : Result Error A)
      → ((e : Error) → Keeps (failed e))
      → ((x : A) → Keeps (rest x))
      → Keeps (resume failed rest r)
  resume-Keeps failed rest (ok x) f r s p = r x s p
  resume-Keeps failed rest (err e) f r s p = f e s p

  pub attempt-Keeps :
      {A B : Type 0}
      → (m : Exec S A) → (failed : Error → Exec S B) → (rest : A → Exec S B) → Keeps m
      → ((e : Error) → Keeps (failed e))
      → ((x : A) → Keeps (rest x))
      → Keeps (attempt m failed rest)
  attempt-Keeps m failed rest k f r s p = resume-Keeps failed rest (m s).0 f r (m s).1 (k s p)

  pub bind-Keeps :
      {A B : Type 0}
      → (m : Exec S A) → (rest : A → Exec S B) → Keeps m
      → ((x : A) → Keeps (rest x))
      → Keeps (m >>= rest)
  bind-Keeps m rest k r = attempt-Keeps m raise rest k (λ e s p. p) r

  pub choose-Keeps :
      {A : Type 0} → (b : Bool) → (m n : Exec S A) → Keeps m → Keeps n → Keeps (if b then m else n)
  choose-Keeps true m n k l = k
  choose-Keeps false m n k l = l

  -- The same where each branch may rest on its test.
  pub choose_by-Keeps :
      {A : Type 0}
      → (b : Bool) → (m n : Exec S A) → (b ≡ true → Keeps m)
      → (b ≡ false → Keeps n)
      → Keeps (if b then m else n)
  choose_by-Keeps true m n k l = k refl
  choose_by-Keeps false m n k l = l refl
