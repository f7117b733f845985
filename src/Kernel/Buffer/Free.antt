-- ===== src/Kernel/Buffer/Free.antt =====
-- The free list of a buffer pool.
use internetworking_nat_box.Base.{
  ℕ, zero, suc, ◌+◌, ◌<◌, ◌≡◌, refl, sym, ap, ◌∙◌, List, [], ◌∷◌, arith,
}
use mathlib.Core.Path.{subst}
use internetworking_nat_box.Kernel.Queue.{upd}
use internetworking_nat_box.Kernel.Queue.Chain.{Apart, upd_self, upd_ne}
use internetworking_nat_box.Kernel.Buffer.{Pools, link_buffers, getbuf_take, put_back}

-- The free buffers from `first` on, in order.
abbrev pub IsFree : (ℕ → ℕ) → ℕ → List ℕ → Type 0
IsFree word first [] = first ≡ 0
IsFree word first (x ∷ xs) = (first ≡ x) × IsFree word (word x) xs

-- The addresses of `left` more buffers behind the one at `buf`.
abbrev pub addresses : ℕ → ℕ → ℕ → List ℕ
addresses buf size zero = buf ∷ []
addresses buf size (suc left) = buf ∷ addresses (buf + size) size left

IsFree-upd :
    (word : ℕ → ℕ) (a v first : ℕ) (xs : List ℕ)
    → Apart a xs
    → IsFree word first xs
    → IsFree (upd word a v) first xs
IsFree-upd word a v first [] h f = f
IsFree-upd word a v first (x ∷ xs) h f = (
  f.0,
  subst (λ w. IsFree (upd word a v) w xs) (sym (upd_ne word a v x h.0))
      (IsFree-upd word a v (word x) xs h.1 f.1),
)

-- Linking writes at the buffers from `buf` on, and nowhere below.
link_buffers-below :
    (word : ℕ → ℕ) (buf size left i : ℕ) → i < buf → link_buffers word buf size left i ≡ word i
unfolding link_buffers
link_buffers-below word buf size zero i h = upd_ne word buf 0 i (λ e. absurd (omega (arith, e)))
link_buffers-below word buf size (suc left) i h =
    link_buffers-below (upd word buf (buf + size)) (buf + size) size left i (omega arith)
    ∙ upd_ne word buf (buf + size) i (λ e. absurd (omega (arith, e)))

-- A new pool's list is all its buffers, one behind the other.
pub link_buffers-IsFree :
    (word : ℕ → ℕ) (buf size left : ℕ)
    → 0 < size
    → IsFree (link_buffers word buf size left) buf (addresses buf size left)
unfolding link_buffers
link_buffers-IsFree word buf size zero h = (refl, upd_self word buf 0)
link_buffers-IsFree word buf size (suc left) h = (
  refl,
  subst
      (λ w.
        IsFree (link_buffers (upd word buf (buf + size)) (buf + size) size left) w
          (addresses (buf + size) size left))
      (sym (
        link_buffers-below (upd word buf (buf + size)) (buf + size) size left buf (omega arith)
        ∙ upd_self word buf (buf + size)))
      (link_buffers-IsFree (upd word buf (buf + size)) (buf + size) size left h),
)

-- A buffer that is given back is the first free one.
pub put_back-IsFree :
    (p : Pools) (poolid buf : ℕ) (xs : List ℕ)
    → IsFree p.word (p.bpnext poolid) xs
    → Apart buf xs
    → IsFree (put_back poolid buf p).word ((put_back poolid buf p).bpnext poolid) (buf ∷ xs)
unfolding put_back
put_back-IsFree p poolid buf xs f h = (
  upd_self p.bpnext poolid buf,
  subst (λ w. IsFree (upd p.word buf (p.bpnext poolid)) w xs)
      (sym (upd_self p.word buf (p.bpnext poolid)))
      (IsFree-upd p.word buf (p.bpnext poolid) (p.bpnext poolid) xs h f),
)

-- `getbuf` gives the first free buffer, behind its first word, which then holds the pool's number,
-- and leaves the rest free.
pub getbuf_take-IsFree :
    (p : Pools) (poolid x : ℕ) (xs : List ℕ)
    → IsFree p.word (p.bpnext poolid) (x ∷ xs)
    → Apart x xs
    → ((getbuf_take poolid p).0 ≡ x + 4)
      × ((getbuf_take poolid p).1.word x ≡ poolid)
      × IsFree (getbuf_take poolid p).1.word ((getbuf_take poolid p).1.bpnext poolid) xs
unfolding getbuf_take
getbuf_take-IsFree p poolid x xs f h =
    let at : p.bpnext poolid ≡ x = f.0 in
    (
      ap (λ b. b + 4) at,
      ap (λ b. upd p.word b poolid x) at ∙ upd_self p.word x poolid,
      subst (λ w. IsFree (upd p.word (p.bpnext poolid) poolid) w xs)
          (sym (upd_self p.bpnext poolid (p.word (p.bpnext poolid)) ∙ ap p.word at))
          (IsFree-upd p.word (p.bpnext poolid) poolid (p.word x) xs
            (subst (λ b. Apart b xs) (sym at) h) f.1),
    )
