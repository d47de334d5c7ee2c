-- ===== src/Base/LoopBuf/Invariant.antt =====
-- What a chain of frames holds, and when it is well formed.
use gpush.Prelude.{
  ℕ, ◌+◌, ◌≤◌, ◌≡◌, refl, ap, sym, ◌∙◌, List, [], ◌∷◌, ◌++◌, append_assoc, append-nil, true, false,
  arith, length, All, if◌then◌else◌,
}
use gpush.Base.LoopBuf.Frames.{
  full-free, free_size-blank, Frame, window, full, free_size, IsFrame, IsBlank, window-blank,
}
use gpush.Base.LoopBuf.{Chain, LoopBuf}

abbrev pub windows : List Frame → List ℕ
windows [] = []
windows (f ∷ fs) = window f ++ windows fs

pub windows-append : (fs gs : List Frame) → windows (fs ++ gs) ≡ windows fs ++ windows gs
windows-append [] gs = refl
windows-append (f ∷ fs) gs =
    ap (◌++◌ (window f)) (windows-append fs gs)
    ∙ sym (append_assoc (window f) (windows fs) (windows gs))

pub windows-blank : (fs : List Frame) → All IsBlank fs → windows fs ≡ []
windows-blank [] h = refl
windows-blank (f ∷ fs) h = rw (window-blank f h.0.1) (windows-blank fs h.1)

-- The bytes in a chain, oldest first.
abbrev pub contents_of : List Frame → Frame → List ℕ
contents_of done cur = windows done ++ window cur

abbrev pub contents : LoopBuf → List ℕ
contents b = contents_of b.chain.done b.chain.cur

-- The frames behind `m_w_pos` are blank.
pub record IsChain (done : List Frame) (cur : Frame) (spare : List Frame) : Type 0 where
  pub done_ok : All IsFrame done
  pub cur_ok : IsFrame cur
  pub spare_ok : All IsBlank spare

abbrev pub ChainOk : Chain → Type 0
ChainOk c = IsChain c.done c.cur c.spare

pub record IsValid (b : LoopBuf) : Type 0 where
  pub chain_ok : ChainOk b.chain
  pub counted : b.size ≡ length (contents b)

abbrev pub capacity : List Frame → ℕ
capacity [] = 0
capacity (f ∷ fs) = f.cap + capacity fs

-- How many bytes `write` can take from `m_w_pos` on: none if that frame is full.
unfoldable pub room : Frame → List Frame → ℕ
room cur spare = if full cur then 0 else free_size cur + capacity spare

pub contents_of-push :
    (done : List Frame) (f next : Frame)
    → IsBlank next
    → contents_of (done ++ (f ∷ [])) next ≡ contents_of done f
contents_of-push done f next h =
    rw (window-blank next h.1, append-nil, windows-append done (f ∷ [])) (rw append-nil)

pub room-full : (cur : Frame) (spare : List Frame) → full cur ≡ true → room cur spare ≡ 0
unfolding room
room-full cur spare e = rw e

pub room_open :
    (cur : Frame) (spare : List Frame)
    → full cur ≡ false
    → room cur spare ≡ free_size cur + capacity spare
unfolding room
room_open cur spare e = rw e

pub room_blank :
    (cur : Frame) (spare : List Frame) → IsBlank cur → room cur spare ≡ cur.cap + capacity spare
unfolding room
room_blank cur spare h = ground (arith, full-free cur h.0, free_size-blank cur h)

pub free-le-room : (cur : Frame) (spare : List Frame) → IsFrame cur → free_size cur ≤ room cur spare
unfolding room
free-le-room cur spare v = ground (arith, full-free cur v)
