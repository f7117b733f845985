-- ===== src/Net/Fwd/Sort.antt =====
-- `sortFwdTab` sorts by falling prefix length and keeps the entries.
use internetworking_nat_box.Base.{
  ℕ, zero, suc, ◌≤◌, min, max, ◌≡◌, refl, ap, ◌∙◌, inl, inr, [], ◌∷◌, ◌++◌, arith, ltb, Bool-cases,
  length, All,
}
use mathlib.Core.List.{Perm, append-nil}
use mathlib.Core.List.Perm
use internetworking_nat_box.Net.Fwd.{FwdEntry, FwdTab, bubble, bubble_passes, sort_fwd_tab}

-- No later entry has a longer prefix.
abbrev pub IsSorted : FwdTab → Type 0
IsSorted [] = Unit
IsSorted (e ∷ tab) = All (λ d. d.prefix_len ≤ e.prefix_len) tab × IsSorted tab

abbrev pub NoLonger : ℕ → FwdTab → Type 0
NoLonger m = All (λ e. e.prefix_len ≤ m)

abbrev NoShorter : ℕ → FwdTab → Type 0
NoShorter m = All (λ e. m ≤ e.prefix_len)

-- A pass over the unsorted front `a ∷ xs` moves an entry `last` of least prefix length to its end.
record Passed (a : FwdEntry) (xs zs : FwdTab) : Type 0 where
  front : FwdTab
  last : FwdEntry
  split : bubble (length xs) (a ∷ xs ++ zs) ≡ front ++ (last ∷ zs)
  size : length front ≡ length xs
  least : NoShorter last.prefix_len front
  least_before : last.prefix_len ≤ a.prefix_len
  bounded : (m : ℕ) → m ≤ a.prefix_len → NoShorter m xs → NoShorter m front × (m ≤ last.prefix_len)

-- One comparison puts `hi` in front and goes on with `lo`.
Passed-cons :
    (a b hi lo : FwdEntry) (xs zs : FwdTab)
    → bubble (suc (length xs)) (a ∷ b ∷ xs ++ zs) ≡ hi ∷ bubble (length xs) (lo ∷ xs ++ zs)
    → lo.prefix_len ≡ min a.prefix_len b.prefix_len
    → hi.prefix_len ≡ max a.prefix_len b.prefix_len
    → Passed lo xs zs
    → Passed a (b ∷ xs) zs
Passed-cons a b hi lo xs zs e l h p = record {
  front = hi ∷ p.front;
  last = p.last;
  split = e ∙ ap (λ t. hi ∷ t) p.split;
  size = ap suc p.size;
  least = (omega (arith, p.least_before), p.least);
  least_before = omega (arith, p.least_before);
  bounded = λ m below rest. let (f, r) = p.bounded m (omega arith) rest.1 in ((omega arith, f), r);
}

bubble-Passed : (a : FwdEntry) (xs zs : FwdTab) → Passed a xs zs
unfolding bubble
bubble-Passed a [] zs = record {
  front = [];
  last = a;
  split = refl;
  size = refl;
  least = tt;
  least_before = omega arith;
  bounded = λ m h k. (tt, h);
}
bubble-Passed a (b ∷ xs) zs = elim (Bool-cases (ltb a.prefix_len b.prefix_len)) [
  | inl swap ↦
      Passed-cons a b b a xs zs (rw swap) (ground arith) (ground arith) (bubble-Passed a xs zs)
  | inr keep ↦
      Passed-cons a b a b xs zs (rw keep) (ground arith) (ground arith) (bubble-Passed b xs zs)
]

NoLonger-trans : (m n : ℕ) (tab : FwdTab) → m ≤ n → NoLonger m tab → NoLonger n tab
NoLonger-trans m n [] h k = tt
NoLonger-trans m n (e ∷ tab) h k = (omega arith, NoLonger-trans m n tab h k.1)

-- Every entry of the front is at least as long as every one behind it.
Above : FwdTab → FwdTab → Type 0
Above xs [] = Unit
Above xs (z ∷ zs) = NoShorter z.prefix_len xs × Above xs zs

Above-front :
    (a : FwdEntry) (xs zs : FwdTab) (p : Passed a xs zs)
    → (ys : FwdTab) → Above (a ∷ xs) ys
    → Above p.front ys × NoLonger p.last.prefix_len ys
unfolding Above
Above-front a xs zs p [] h = (tt, tt)
Above-front a xs zs p (y ∷ ys) h =
    let (f, l) = p.bounded y.prefix_len h.0.0 h.0.1 in
    let (g, k) = Above-front a xs zs p ys h.1 in ((f, g), (l, k))

Above-single : (x : FwdEntry) (zs : FwdTab) → Above (x ∷ []) zs → NoLonger x.prefix_len zs
unfolding Above
Above-single x [] h = tt
Above-single x (z ∷ zs) h = (h.0.0, Above-single x zs h.1)

bubble_passes-IsSorted :
    (n : ℕ) (xs zs : FwdTab)
    → length xs ≡ suc n
    → IsSorted zs
    → Above xs zs
    → IsSorted (bubble_passes n (xs ++ zs))
unfolding bubble_passes Above
bubble_passes-IsSorted n [] zs l s h = absurd (omega arith)
bubble_passes-IsSorted zero (x ∷ []) zs l s h = (Above-single x zs h, s)
bubble_passes-IsSorted zero (x ∷ y ∷ xs) zs l s h = absurd (omega arith)
bubble_passes-IsSorted (suc n) (x ∷ xs) zs l s h =
    let p = bubble-Passed x xs zs in
    let (f, k) = Above-front x xs zs p zs h in
    let len : length xs ≡ suc n = omega arith in
    rw (← len, p.split)
      (bubble_passes-IsSorted n p.front (p.last ∷ zs) (omega (arith, p.size)) (k, s) (p.least, f))

bubble-Perm : (n : ℕ) (tab : FwdTab) → Perm (bubble n tab) tab
unfolding bubble
bubble-Perm zero tab = Perm.refl tab
bubble-Perm (suc n) [] = Perm.refl []
bubble-Perm (suc n) (a ∷ []) = Perm.refl (a ∷ [])
bubble-Perm (suc n) (a ∷ b ∷ tab) = elim (Bool-cases (ltb a.prefix_len b.prefix_len)) [
  | inl swap ↦ rw swap (Perm.trans (Perm.cons b (bubble-Perm n (a ∷ tab))) (Perm.swap _ _ _))
  | inr keep ↦ rw keep (Perm.cons a (bubble-Perm n (b ∷ tab)))
]

bubble_passes-Perm : (n : ℕ) (tab : FwdTab) → Perm (bubble_passes n tab) tab
unfolding bubble_passes
bubble_passes-Perm zero tab = Perm.refl tab
bubble_passes-Perm (suc n) tab =
    Perm.trans (bubble_passes-Perm n (bubble (suc n) tab)) (bubble-Perm (suc n) tab)

-- On the full table, `sortFwdTab` leaves no entry behind one with a shorter prefix, and only
-- permutes the entries.
pub sort_fwd_tab-IsSorted :
    (tab : FwdTab) → length tab ≡ 30 → IsSorted (sort_fwd_tab tab) × Perm (sort_fwd_tab tab) tab
unfolding sort_fwd_tab Above
sort_fwd_tab-IsSorted tab l =
    (rw (← append-nil tab) (bubble_passes-IsSorted 29 tab [] l tt tt), bubble_passes-Perm 29 tab)

length-bubble : (n : ℕ) (tab : FwdTab) → length (bubble n tab) ≡ length tab
unfolding bubble
length-bubble zero tab = refl
length-bubble (suc n) [] = refl
length-bubble (suc n) (a ∷ []) = refl
length-bubble (suc n) (a ∷ b ∷ tab) = ap suc (length-bubble n _)

length-bubble_passes : (n : ℕ) (tab : FwdTab) → length (bubble_passes n tab) ≡ length tab
unfolding bubble_passes
length-bubble_passes zero tab = refl
length-bubble_passes (suc n) tab =
    length-bubble_passes n (bubble (suc n) tab) ∙ length-bubble (suc n) tab

pub length-sort_fwd_tab : (tab : FwdTab) → length (sort_fwd_tab tab) ≡ length tab
unfolding sort_fwd_tab
length-sort_fwd_tab tab = length-bubble_passes 29 tab

-- What holds of every entry still does after the sort.
All-bubble : (P : FwdEntry → Type 0) (n : ℕ) (tab : FwdTab) → All P tab → All P (bubble n tab)
unfolding bubble
All-bubble P zero tab h = h
All-bubble P (suc n) [] h = h
All-bubble P (suc n) (a ∷ []) h = h
All-bubble P (suc n) (a ∷ b ∷ tab) h = elim (Bool-cases (ltb a.prefix_len b.prefix_len)) [
  | inl swap ↦ rw swap (h.1.0, All-bubble P n (a ∷ tab) (h.0, h.1.1))
  | inr keep ↦ rw keep (h.0, All-bubble P n (b ∷ tab) h.1)
]

All-bubble_passes :
    (P : FwdEntry → Type 0) (n : ℕ) (tab : FwdTab) → All P tab → All P (bubble_passes n tab)
unfolding bubble_passes
All-bubble_passes P zero tab h = h
All-bubble_passes P (suc n) tab h =
    All-bubble_passes P n (bubble (suc n) tab) (All-bubble P (suc n) tab h)

pub All-sort_fwd_tab : (P : FwdEntry → Type 0) (tab : FwdTab) → All P tab → All P (sort_fwd_tab tab)
unfolding sort_fwd_tab
All-sort_fwd_tab P tab h = All-bubble_passes P 29 tab h
