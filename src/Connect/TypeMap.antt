-- ===== src/Connect/TypeMap.antt =====
-- connect_server/src/type_map.{h,cpp}: the push servers that are logged in. A connection is named by
-- its address, which is not 0.
pub mod Turns
mod Tests
use gpush.Prelude.{
  ℕ, ◌+◌, ◌%◌, ◌^◌, List, [], ◌∷◌, ◌++◌, Option, none, some, if◌then◌else◌, ◌==◌, length, get_or,
}
use gpush.Prelude.Int32.{negative}
use gpush.Connect.ErrNo.{no_service, inner_error}

pub record SvList : Type 0 where
  pub svs : List ℕ
  pub cnt : ℕ

-- `erase` of the first place where `find` sees the connection.
unfoldable pub erase : ℕ → List ℕ → List ℕ
erase c [] = []
erase c (x ∷ xs) = let rest = erase c xs in if x == c then xs else x ∷ rest

unfoldable pub add_server : ℕ → SvList → SvList
add_server c l = record l { svs = l.svs ++ (c ∷ []) }

unfoldable pub del_server : ℕ → SvList → SvList
unfolding erase
del_server c l = record l { svs = erase c l.svs }

-- `++m_cnt`, from 0 again when it overflows.
next_cnt : ℕ → ℕ
next_cnt cnt = let up = (cnt + 1) % 2 ^ 32 in if negative up then 0 else up

-- The connection that the request was posted to, the list and the result; `post` is what
-- `addAsynOperator` returns for a connection.
pub trans_request : (ℕ → ℕ) → SvList → Option ℕ × SvList × ℕ
unfolding next_cnt
trans_request post l =
    let c = get_or l.svs (l.cnt % length l.svs) 0 in
    if length l.svs == 0
    then (none, l, no_service)
    else if c == 0
    then (none, l, no_service)
    else if negative (post c)
    then (some c, l, inner_error)
    else (some c, record l { cnt = next_cnt l.cnt }, 0)
