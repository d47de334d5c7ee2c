-- ===== src/Base/LoopBuf/Extend.antt =====
-- `extend` and the frames that it allocates.
use gpush.Prelude.{
  ℕ, ◌+◌, ◌-◌, ◌%◌, ◌≡◌, refl, ap, sym, ◌∙◌, inl, inr, List, [], ◌∷◌, ◌++◌, Bool-cases, true, false,
  arith, length, All, All-append, length-replicate,
}
use gpush.Base.LoopBuf.Frames.{Frame, full, free_size, IsFrame, IsBlank, full-free}
use gpush.Base.LoopBuf.{LoopBuf, extend, alloc_frame, new_buf}
use gpush.Base.LoopBuf.Invariant.{
  contents, IsValid, capacity, room, room_open, room_blank, contents_of-push,
}

alloc_frame-IsBlank : (l : ℕ) → IsBlank (alloc_frame l)
unfolding alloc_frame
alloc_frame-IsBlank l = (
  record { whole = length-replicate _ 0; fits = omega arith; nonempty = omega arith },
  refl,
  refl,
)

-- The buffer that the constructor makes.
pub new_buf-IsValid : IsValid new_buf
unfolding new_buf alloc_frame
new_buf-IsValid = record {
  chain_ok = record { done_ok = tt; cur_ok = (alloc_frame-IsBlank 1024).0; spare_ok = tt };
  counted = refl;
}

pub cap-alloc_frame : (l : ℕ) → (alloc_frame l).cap ≡ l + 2048 - l % 2048 - 32
unfolding alloc_frame
cap-alloc_frame l = refl

capacity-append : (fs gs : List Frame) → capacity (fs ++ gs) ≡ capacity fs + capacity gs
capacity-append [] gs = omega arith
capacity-append (f ∷ fs) gs = omega (arith, capacity-append fs gs)

-- The chain that `extend` leaves.
pub record Extended (b : LoopBuf) (sz : ℕ) (b' : LoopBuf) : Type 0 where
  pub valid : IsValid b'
  pub same : contents b' ≡ contents b
  pub space :
      room b'.chain.cur b'.chain.spare
      ≡ free_size b.chain.cur + capacity b.chain.spare + (alloc_frame sz).cap

module _ (done : List Frame) (cur : Frame) (n sz : ℕ) where
  abbrev at_cur : List Frame → LoopBuf
  at_cur spare = record { chain = record { done = done; cur = cur; spare = spare }; size = n }

  extend_open :
      (spare : List Frame)
      → IsValid (at_cur spare)
      → full cur ≡ false
      → Extended (at_cur spare) sz (at_cur (spare ++ (alloc_frame sz ∷ [])))
  extend_open spare v e = record {
    valid = record {
      chain_ok = record {
        done_ok = v.chain_ok.done_ok;
        cur_ok = v.chain_ok.cur_ok;
        spare_ok = All-append IsBlank spare _ v.chain_ok.spare_ok (alloc_frame-IsBlank sz, tt);
      };
      counted = v.counted;
    };
    same = refl;
    space = omega (
      arith,
      room_open cur (spare ++ (alloc_frame sz ∷ [])) e,
      capacity-append spare (alloc_frame sz ∷ []),
    );
  }

  -- `m_w_pos` moves on to the next frame.
  extend_full :
      (next : Frame) (spare : List Frame)
      → IsValid (at_cur [])
      → full cur ≡ true
      → All IsBlank (next ∷ spare)
      → let b' : LoopBuf = record {
        chain = record { done = done ++ (cur ∷ []); cur = next; spare = spare };
        size = n;
      } in
        IsValid b'
        × (contents b' ≡ contents (at_cur []))
        × (room next spare ≡ free_size cur + next.cap + capacity spare)
  extend_full next spare v e h = (
    record {
      chain_ok = record {
        done_ok = All-append IsFrame done _ v.chain_ok.done_ok (v.chain_ok.cur_ok, tt);
        cur_ok = h.0.0;
        spare_ok = h.1;
      };
      counted = v.counted ∙ ap length (sym (contents_of-push done cur next h.0));
    },
    contents_of-push done cur next h.0,
    ground (arith, room_blank next spare h.0, full-free cur v.chain_ok.cur_ok),
  )

extend_from :
    (done : List Frame) (cur : Frame) (spare : List Frame) (n sz : ℕ)
    → IsValid (at_cur done cur n sz spare)
    → full cur ≡ true
    → Extended (at_cur done cur n sz spare) sz (extend (at_cur done cur n sz spare) sz)
unfolding extend
extend_from done cur [] n sz v e =
    let x = extend_full done cur n sz (alloc_frame sz) [] v e (alloc_frame-IsBlank sz, tt) in
    rw e (record { valid = x.0; same = x.1; space = omega (arith, x.2) })
extend_from done cur (next ∷ spare) n sz v e =
    let blank = v.chain_ok.spare_ok in
    let x =
      extend_full done cur n sz next (spare ++ (alloc_frame sz ∷ []))
        (record {
          chain_ok = record {
            done_ok = v.chain_ok.done_ok;
            cur_ok = v.chain_ok.cur_ok;
            spare_ok = tt;
          };
          counted = v.counted;
        })
        e (blank.0, All-append IsBlank spare _ blank.1 (alloc_frame-IsBlank sz, tt)) in
    rw e (record {
      valid = x.0;
      same = x.1;
      space = omega (arith, x.2, capacity-append spare (alloc_frame sz ∷ []));
    })

pub extend_lem : (b : LoopBuf) (sz : ℕ) → IsValid b → Extended b sz (extend b sz)
extend_lem b sz v = elim (Bool-cases (full b.chain.cur)) [
  | inl e ↦ extend_from b.chain.done b.chain.cur b.chain.spare b.size sz v e
  | inr e ↦ unfold extend in rw e (extend_open b.chain.done b.chain.cur b.size sz b.chain.spare v e)
]

-- `extend` adds a blank frame and no bytes.
pub extend-IsValid :
    (b : LoopBuf) (sz : ℕ)
    → IsValid b
    → IsValid (extend b sz) × (contents (extend b sz) ≡ contents b)
extend-IsValid b sz v = let x = extend_lem b sz v in (x.valid, x.same)
