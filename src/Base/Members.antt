-- ===== src/Base/Members.antt =====
-- From a predicate by recursion to the library's membership and back.
use Prim.Native.Nat.{ℕ, zero, suc}
use mathlib.Core.Path.{◌≡◌, subst, sym}
use mathlib.Core.List.{List, [], ◌∷◌, Mem, mem-cons, not-mem-nil, mem-cons_self, mem-cons_of_mem}
use mathlib.Core.Option.{some}
use mathlib.Core.Logic.Or
use internetworking_nat_box.Base.Lists.{get_elem?, All}
use internetworking_nat_box.Base.Tests.{eq_of_some}

module _ {ℓ} {A : Type ℓ} where
  pub All-mem {κ} :
      (P : A → Type κ) (xs : List A) {a : A} → ((x : A) → IsProp (P x)) → All P xs → Mem a xs → P a
  All-mem P [] prop h m = absurd (not-mem-nil m)
  All-mem P (x ∷ xs) {a} prop h m =
      Or.elim (prop a) (mem-cons.0 m) (λ e. subst P (sym e) h.0) (All-mem P xs prop h.1)

  pub get_elem?-mem : (xs : List A) (i : ℕ) {a : A} → get_elem? xs i ≡ some a → Mem a xs
  get_elem?-mem [] i h = cc
  get_elem?-mem (x ∷ xs) zero h = subst (λ a. Mem a (x ∷ xs)) (eq_of_some h) mem-cons_self
  get_elem?-mem (x ∷ xs) (suc i) h = mem-cons_of_mem x (get_elem?-mem xs i h)
