-- ===== src/Base/LoopBuf/Tests.antt =====
-- Runs of the byte queue, and its properties at a chain of small frames.
use gpush.Prelude.{◌≡◌, refl, [], ◌∷◌, ◌++◌, some, none, arith, take, replicate}
use gpush.Base.LoopBuf.Frames.{Frame, full, free_size, frame_write}
use gpush.Base.LoopBuf.{
  LoopBuf, write_loop, write, read, peek, find, clear, grow, store_free, auto_resize_write,
  free_frame_len,
}
use gpush.Base.LoopBuf.Invariant.{contents, IsValid, room}
use gpush.Base.LoopBuf.Write.{write_lem}
use gpush.Base.LoopBuf.Read.{read_lem, read_stuck, peek_lem}
use gpush.Base.LoopBuf.Search.{Found, find_lem, clear_lem}
use gpush.Base.LoopBuf.Receive.{grow-store_free}
use gpush.Base.LoopBuf.Resize.{auto_resize_write_lem, auto_resize_write_drops}

-- Frames of 4 bytes: one with 2 and 3 in its middle, one with 4, and a blank one.
abbrev two_used : Frame
two_used = record { buf = 1 ∷ 2 ∷ 3 ∷ 0 ∷ []; cap = 4; size = 2; start = 1 }

abbrev one_used : Frame
one_used = record { buf = 4 ∷ 0 ∷ 0 ∷ 0 ∷ []; cap = 4; size = 1; start = 0 }

abbrev blank : Frame
blank = record { buf = 0 ∷ 0 ∷ 0 ∷ 0 ∷ []; cap = 4; size = 0; start = 0 }

abbrev small : LoopBuf
small = record {
  chain = record { done = two_used ∷ []; cur = one_used; spare = blank ∷ [] };
  size = 3;
}

small-IsValid : IsValid small
small-IsValid = record {
  chain_ok = record { done_ok = omega arith; cur_ok = omega arith; spare_ok = omega arith };
  counted = refl;
}

contents-small : contents small ≡ 2 ∷ 3 ∷ 4 ∷ []
contents-small = refl

write-small : contents (write small (5 ∷ 6 ∷ 7 ∷ 8 ∷ [])).1 ≡ 2 ∷ 3 ∷ 4 ∷ 5 ∷ 6 ∷ 7 ∷ 8 ∷ []
unfolding write write_loop full frame_write
write-small = refl

write_lem_example :
    let (n, b') = write small (5 ∷ 6 ∷ 7 ∷ 8 ∷ []) in
    (n ≡ 4) × (contents b' ≡ 2 ∷ 3 ∷ 4 ∷ 5 ∷ 6 ∷ 7 ∷ 8 ∷ []) × IsValid b'
unfolding room full free_size
write_lem_example = write_lem small (5 ∷ 6 ∷ 7 ∷ 8 ∷ []) small-IsValid

read_lem_example :
    (b' : LoopBuf) × (read 3 small 2 ≡ some (2 ∷ 3 ∷ [], b')) × (contents b' ≡ 4 ∷ []) × IsValid b'
read_lem_example = read_lem 3 small 2 small-IsValid (omega arith) (omega arith)

read_stuck_example : read 1000000 small 4 ≡ none
read_stuck_example = read_stuck 1000000 small 4 small-IsValid (omega arith) (omega arith)

peek-small : peek small 2 ≡ 2 ∷ 3 ∷ []
peek-small = peek_lem small 2 small-IsValid

find_four : Found 4 (2 ∷ 3 ∷ 4 ∷ []) (find 4 small)
find_four = find_lem 4 small small-IsValid

small_cleared : ((clear small).0 ≡ 3) × (contents (clear small).1 ≡ []) × IsValid (clear small).1
small_cleared = clear_lem small small-IsValid

two_more_frames :
    (b' : LoopBuf) × (grow (store_free small (9 ∷ 8 ∷ [])) 2 ≡ some (2, b'))
    × (contents b' ≡ 2 ∷ 3 ∷ 4 ∷ 9 ∷ 8 ∷ [])
    × IsValid b'
unfolding free_frame_len free_size
two_more_frames = grow-store_free small (9 ∷ 8 ∷ []) small-IsValid (omega arith) (omega arith)

-- A queue whose only frame is used up, so that all is left over.
abbrev used_up : LoopBuf
used_up = record {
  chain = record { done = []; cur = record one_used { size = 4 }; spare = [] };
  size = 4;
}

used_up-IsValid : IsValid used_up
used_up-IsValid = record {
  chain_ok = record { done_ok = tt; cur_ok = omega arith; spare_ok = tt };
  counted = refl;
}

auto_resize_write_lem_example :
    ((auto_resize_write used_up (replicate 2016 7)).0 ≡ 2016)
    × (contents (auto_resize_write used_up (replicate 2016 7)).1
        ≡ (4 ∷ 0 ∷ 0 ∷ 0 ∷ []) ++ replicate 2016 7)
    × IsValid (auto_resize_write used_up (replicate 2016 7)).1
unfolding room full free_size
auto_resize_write_lem_example =
    auto_resize_write_lem used_up (replicate 2016 7) used_up-IsValid (omega arith)

-- Of 2017 bytes one is lost.
auto_resize_write_drops_example :
    ((auto_resize_write used_up (replicate 2017 7)).0 ≡ 2017)
    × (contents (auto_resize_write used_up (replicate 2017 7)).1
        ≡ (4 ∷ 0 ∷ 0 ∷ 0 ∷ []) ++ take 2016 (replicate 2017 7))
unfolding room full free_size
auto_resize_write_drops_example =
    auto_resize_write_drops used_up (replicate 2017 7) used_up-IsValid refl (omega arith)
