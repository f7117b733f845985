-- ===== src/Kernel/Queue/Chain.antt =====
-- Doubly linked chains of nodes in the table, cut and joined.
use internetworking_nat_box.Base.{ℕ, ◌≡◌, ◌∙◌, ◌≢◌, List, [], ◌∷◌, ◌++◌, arith, All}
use internetworking_nat_box.Kernel.Queue.{QueueTab, upd}

-- `x` is none of the nodes.
abbrev pub Apart : ℕ → List ℕ → Type 0
Apart x ns = All (λ i. x ≢ i) ns

abbrev pub Distinct : List ℕ → Type 0
Distinct [] = Unit
Distinct (x ∷ xs) = Apart x xs × Distinct xs

-- Consecutive nodes are linked both ways.
abbrev pub IsChain : QueueTab → List ℕ → Type 0
IsChain tab [] = Unit
IsChain tab (u ∷ []) = Unit
IsChain tab (u ∷ v ∷ r) = ((tab.qnext u ≡ v) × (tab.qprev v ≡ u)) × IsChain tab (v ∷ r)

pub upd_self : (f : ℕ → ℕ) (i v : ℕ) → upd f i v i ≡ v
upd_self f i v = ground arith

pub upd_ne : (f : ℕ → ℕ) (i v j : ℕ) → i ≢ j → upd f i v j ≡ f j
upd_ne f i v j h = ground arith

-- Two tables agree on the forward or on the backward links of some nodes.
abbrev pub SameNext : QueueTab → QueueTab → List ℕ → Type 0
SameNext tab tab' ns = All (λ i. tab'.qnext i ≡ tab.qnext i) ns

abbrev pub SamePrev : QueueTab → QueueTab → List ℕ → Type 0
SamePrev tab tab' ns = All (λ i. tab'.qprev i ≡ tab.qprev i) ns

-- A chain depends on the forward links of all nodes but the last, and on the backward links of all
-- but the first.
pub IsChain-before :
    (tab tab' : QueueTab) (l : List ℕ) (u : ℕ)
    → SameNext tab tab' l
    → SamePrev tab tab' (l ++ (u ∷ []))
    → IsChain tab (l ++ (u ∷ []))
    → IsChain tab' (l ++ (u ∷ []))
IsChain-before tab tab' [] u n p c = tt
IsChain-before tab tab' (a ∷ []) u n p c = ((n.0 ∙ c.0.0, p.1.0 ∙ c.0.1), tt)
IsChain-before tab tab' (a ∷ b ∷ l) u n p c =
    ((n.0 ∙ c.0.0, p.1.0 ∙ c.0.1), IsChain-before tab tab' (b ∷ l) u n.1 p.1 c.1)

pub IsChain-after :
    (tab tab' : QueueTab) (v : ℕ) (r : List ℕ)
    → SameNext tab tab' (v ∷ r)
    → SamePrev tab tab' r
    → IsChain tab (v ∷ r)
    → IsChain tab' (v ∷ r)
IsChain-after tab tab' v [] n p c = tt
IsChain-after tab tab' v (b ∷ r) n p c =
    ((n.0 ∙ c.0.0, p.0 ∙ c.0.1), IsChain-after tab tab' b r n.1 p.1 c.1)

-- A chain through `u` is a chain up to `u` and one from `u`.
pub IsChain-cut :
    (tab : QueueTab) (l : List ℕ) (u : ℕ) (r : List ℕ)
    → IsChain tab (l ++ (u ∷ r))
    → IsChain tab (l ++ (u ∷ [])) × IsChain tab (u ∷ r)
IsChain-cut tab [] u r c = (tt, c)
IsChain-cut tab (a ∷ []) u r c = ((c.0, tt), c.1)
IsChain-cut tab (a ∷ b ∷ l) u r c =
    let (before, after) = IsChain-cut tab (b ∷ l) u r c.1 in ((c.0, before), after)

pub IsChain-join :
    (tab : QueueTab) (l : List ℕ) (u : ℕ) (r : List ℕ)
    → IsChain tab (l ++ (u ∷ []))
    → IsChain tab (u ∷ r)
    → IsChain tab (l ++ (u ∷ r))
IsChain-join tab [] u r before after = after
IsChain-join tab (a ∷ []) u r before after = (before.0, after)
IsChain-join tab (a ∷ b ∷ l) u r before after =
    (before.0, IsChain-join tab (b ∷ l) u r before.1 after)
