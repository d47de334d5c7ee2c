-- ===== src/Sdk/RingBuf/Tests.antt =====
-- A ring of four bytes whose three bytes lie across its end.
use gpush.Prelude.{◌≡◌, refl, [], ◌∷◌, ◌++◌, take, drop, arith}
use gpush.Base.LoopBuf.Frames.{copy_at}
use gpush.Sdk.RingBuf.{RingBuf, read, real_write, write, auto_resize_write}
use gpush.Sdk.RingBuf.Places.{IsValid, contents}
use gpush.Sdk.RingBuf.Queue.{read-contents}
use gpush.Sdk.RingBuf.Resize.{auto_resize_write-contents}

abbrev bent : RingBuf
bent = record { buf = 7 ∷ 0 ∷ 5 ∷ 6 ∷ []; cap = 4; size = 3; start = 2 }

bent-IsValid : IsValid bent
bent-IsValid = record {
  full = refl;
  some_room = omega arith;
  bounded = omega arith;
  starts = omega arith;
}

bent-bytes : contents bent ≡ 5 ∷ 6 ∷ 7 ∷ []
unfolding contents
bent-bytes = refl

read-contents_example :
    ((read bent 2).0 ≡ take 2 (contents bent))
    × (contents (read bent 2).1 ≡ drop 2 (contents bent))
    × IsValid (read bent 2).1
read-contents_example = read-contents bent 2 bent-IsValid

-- One byte fits behind the end, and more make the ring grow.
write-bent : (write bent (8 ∷ [])).1.buf ≡ 7 ∷ 8 ∷ 5 ∷ 6 ∷ []
unfolding write real_write copy_at
write-bent = refl

auto_resize_write-contents_example :
    (contents (auto_resize_write bent (8 ∷ 9 ∷ [])).1 ≡ contents bent ++ (8 ∷ 9 ∷ []))
    × ((auto_resize_write bent (8 ∷ 9 ∷ [])).0 ≡ 2)
    × IsValid (auto_resize_write bent (8 ∷ 9 ∷ [])).1
auto_resize_write-contents_example = auto_resize_write-contents bent (8 ∷ 9 ∷ []) bent-IsValid
