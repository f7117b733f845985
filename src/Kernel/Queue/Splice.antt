-- ===== src/Kernel/Queue/Splice.antt =====
-- Putting a node into a chain and taking one out, and what both leave alone.
use internetworking_nat_box.Base.{ℕ, ◌≡◌, sym, ap₂, ◌∙◌, ◌≢◌, List, [], ◌∷◌, ◌++◌, All, All-append}
use mathlib.Core.List.{append_assoc}
use mathlib.Core.Path.{subst}
use internetworking_nat_box.Kernel.Queue.{QueueTab, upd, link_in, getitem}
use internetworking_nat_box.Kernel.Queue.Chain.{
  Apart, Distinct, IsChain, upd_self, upd_ne, SameNext, SamePrev, IsChain-before, IsChain-after,
  IsChain-cut, IsChain-join,
}

pub All-split {ℓ κ} :
    {A : Type ℓ} (P : A → Type κ) (xs ys : List A) → All P (xs ++ ys) → All P xs × All P ys
All-split P [] ys h = (tt, h)
All-split P (x ∷ xs) ys h = let (a, b) = All-split P xs ys h.1 in ((h.0, a), b)

apart_sym : {x y : ℕ} → x ≢ y → y ≢ x
apart_sym h e = h (sym e)

-- A node of a list without repetitions is apart from the others.
pub Distinct-middle :
    (l : List ℕ) (x : ℕ) (r : List ℕ) → Distinct (l ++ (x ∷ r)) → Apart x l × Apart x r
Distinct-middle [] x r d = (tt, d.0)
Distinct-middle (a ∷ l) x r d =
    let (left, right) = Distinct-middle l x r d.1 in
    ((apart_sym (All-split (λ i. a ≢ i) l (x ∷ r) d.0).1.0, left), right)

pub upd-Apart : (f : ℕ → ℕ) (a v : ℕ) (ns : List ℕ) → Apart a ns → All (λ i. upd f a v i ≡ f i) ns
upd-Apart f a v [] h = tt
upd-Apart f a v (n ∷ ns) h = (upd_ne f a v n h.0, upd-Apart f a v ns h.1)

pub upd-upd-Apart :
    (f : ℕ → ℕ) (a v b w : ℕ) (ns : List ℕ)
    → Apart a ns
    → Apart b ns
    → All (λ i. upd (upd f a v) b w i ≡ f i) ns
upd-upd-Apart f a v b w [] h k = tt
upd-upd-Apart f a v b w (n ∷ ns) h k =
    (upd_ne (upd f a v) b w n k.0 ∙ upd_ne f a v n h.0, upd-upd-Apart f a v b w ns h.1 k.1)

-- Where two neighbours of a chain stand in it.
record IsBetween (l : List ℕ) (u v : ℕ) (r : List ℕ) : Type 0 where
  before : Apart u l
  after : Apart u (v ∷ r)
  next_before : Apart v (l ++ (u ∷ []))
  next_after : Apart v r

Distinct-IsBetween :
    (l : List ℕ) (u v : ℕ) (r : List ℕ) → Distinct (l ++ (u ∷ v ∷ r)) → IsBetween l u v r
Distinct-IsBetween l u v r d =
    let one = Distinct-middle l u (v ∷ r) d in
    let grouped : l ++ (u ∷ v ∷ r) ≡ (l ++ (u ∷ [])) ++ (v ∷ r) =
      sym (append_assoc l (u ∷ []) (v ∷ r)) in
    let two = Distinct-middle (l ++ (u ∷ [])) v r (subst Distinct grouped d) in
    record { before = one.0; after = one.1; next_before = two.0; next_after = two.1 }

-- A process that is not in a chain is put between two neighbours.
pub link_in-IsChain :
    (tab : QueueTab) (l : List ℕ) (u p v : ℕ) (r : List ℕ)
    → Distinct (l ++ (u ∷ v ∷ r))
    → Apart p (l ++ (u ∷ v ∷ r))
    → IsChain tab (l ++ (u ∷ v ∷ r))
    → IsChain (link_in tab u p v) (l ++ (u ∷ p ∷ v ∷ r))
unfolding link_in
link_in-IsChain tab l u p v r d new c =
    let b = Distinct-IsBetween l u v r d in
    let cut = IsChain-cut tab l u (v ∷ r) c in
    let apart = All-split (λ i. p ≢ i) l (u ∷ v ∷ r) new in
    let (p_u, (p_v, p_r)) = apart.1 in
    let (v_l, v_u) = All-split (λ i. v ≢ i) l (u ∷ []) b.next_before in
    let tab' = link_in tab u p v in
    let left : IsChain tab' (l ++ (u ∷ [])) =
      IsChain-before tab tab' l u (upd-upd-Apart tab.qnext p v u p l apart.0 b.before)
        (upd-upd-Apart tab.qprev p u v p (l ++ (u ∷ []))
          (All-append (λ i. p ≢ i) l (u ∷ []) apart.0 (p_u, tt)) b.next_before)
        cut.0 in
    let right : IsChain tab' (v ∷ r) =
      IsChain-after tab tab' v r (upd-upd-Apart tab.qnext p v u p (v ∷ r) (p_v, p_r) b.after)
        (upd-upd-Apart tab.qprev p u v p r p_r b.next_after) cut.1.1 in
    IsChain-join tab' l u (p ∷ v ∷ r) left (
      (
        upd_self (upd tab.qnext p v) u p,
        upd_ne (upd tab.qprev p u) v p p (apart_sym p_v) ∙ upd_self tab.qprev p u,
      ),
      (
        (
          upd_ne (upd tab.qnext p v) u p p (apart_sym p_u) ∙ upd_self tab.qnext p v,
          upd_self (upd tab.qprev p u) v p,
        ),
        right,
      ),
    )

-- A node is taken out.
pub getitem-IsChain :
    (tab : QueueTab) (l : List ℕ) (u x v : ℕ) (r : List ℕ)
    → Distinct (l ++ (u ∷ x ∷ v ∷ r))
    → IsChain tab (l ++ (u ∷ x ∷ v ∷ r))
    → IsChain (getitem tab x) (l ++ (u ∷ v ∷ r))
unfolding getitem
getitem-IsChain tab l u x v r d c =
    let one = Distinct-IsBetween l u x (v ∷ r) d in
    let grouped : l ++ (u ∷ x ∷ v ∷ r) ≡ (l ++ (u ∷ [])) ++ (x ∷ v ∷ r) =
      sym (append_assoc l (u ∷ []) (x ∷ v ∷ r)) in
    let two = Distinct-IsBetween (l ++ (u ∷ [])) x v r (subst Distinct grouped d) in
    let v_left = All-split (λ i. v ≢ i) (l ++ (u ∷ [])) (x ∷ []) two.next_before in
    let cut = IsChain-cut tab l u (x ∷ v ∷ r) c in
    let next = cut.1.1.0.0 in
    let prev = cut.1.0.1 in
    let tab' = record tab { qnext = upd tab.qnext u v; qprev = upd tab.qprev v u } in
    let same : tab' ≡ getitem tab x =
      ap₂ (λ a b. record tab { qnext = upd tab.qnext a b; qprev = upd tab.qprev b a }) (sym prev)
        (sym next) in
    let left : IsChain tab' (l ++ (u ∷ [])) =
      IsChain-before tab tab' l u (upd-Apart tab.qnext u v l one.before)
        (upd-Apart tab.qprev v u (l ++ (u ∷ [])) v_left.0) cut.0 in
    let right : IsChain tab' (v ∷ r) =
      IsChain-after tab tab' v r (upd-Apart tab.qnext u v (v ∷ r) one.after.1)
        (upd-Apart tab.qprev v u r two.next_after) cut.1.1.1 in
    subst (λ t. IsChain t (l ++ (u ∷ v ∷ r))) same
      (IsChain-join tab' l u (v ∷ r) left ((upd_self tab.qnext u v, upd_self tab.qprev v u), right))

pub IsChain-same :
    (tab tab' : QueueTab) (ns : List ℕ)
    → SameNext tab tab' ns
    → SamePrev tab tab' ns
    → IsChain tab ns
    → IsChain tab' ns
IsChain-same tab tab' [] n p c = tt
IsChain-same tab tab' (v ∷ r) n p c = IsChain-after tab tab' v r n p.1 c

-- Chains that have none of the nodes that are written stay.
pub link_in-frame :
    (tab : QueueTab) (u p v : ℕ) (ns : List ℕ)
    → Apart u ns
    → Apart p ns
    → Apart v ns
    → IsChain tab ns
    → IsChain (link_in tab u p v) ns
unfolding link_in
link_in-frame tab u p v ns hu hp hv c =
    IsChain-same tab (link_in tab u p v) ns (upd-upd-Apart tab.qnext p v u p ns hp hu)
      (upd-upd-Apart tab.qprev p u v p ns hp hv) c

pub getitem-frame :
    (tab : QueueTab) (u x v : ℕ) (ns : List ℕ)
    → tab.qprev x ≡ u
    → tab.qnext x ≡ v
    → Apart u ns
    → Apart v ns
    → IsChain tab ns
    → IsChain (getitem tab x) ns
unfolding getitem
getitem-frame tab u x v ns prev next hu hv c =
    IsChain-same tab (getitem tab x) ns
      (upd-Apart tab.qnext (tab.qprev x) (tab.qnext x) ns (rw prev hu))
      (upd-Apart tab.qprev (tab.qnext x) (tab.qprev x) ns (rw next hv)) c
