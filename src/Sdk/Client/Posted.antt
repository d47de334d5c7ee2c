-- ===== src/Sdk/Client/Posted.antt =====
-- Which connections an operator is posted to delete.
use gpush.Prelude.{List, [], ◌∷◌, ◌++◌, ℕ}
use gpush.Sdk.Client.{Op, del_conn_op}

pub data Posted (cid : ℕ) : List Op → Type 0 where
  next : (rest : List Op) → Posted cid (del_conn_op cid ∷ rest)
  later : (op : Op) (rest : List Op) → Posted cid rest → Posted cid (op ∷ rest)

pub Posted-append : (cid : ℕ) (ops more : List Op) → Posted cid ops → Posted cid (ops ++ more)
Posted-append cid ops more (next rest) = next (rest ++ more)
Posted-append cid ops more (later op rest p) =
    later op (rest ++ more) (Posted-append cid rest more p)

pub Posted_end : (cid : ℕ) (ops : List Op) → Posted cid (ops ++ (del_conn_op cid ∷ []))
Posted_end cid [] = next []
Posted_end cid (op ∷ ops) = later op (ops ++ (del_conn_op cid ∷ [])) (Posted_end cid ops)
