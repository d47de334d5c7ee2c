-- ===== src/Base/Base64/Alphabet.antt =====
-- The tables of efnfw/base/ef_base64.cpp, and that they are inverse to one another.
use Prim.Native.Char.{code}
use Prim.Native.String.{String}
use gpush.Prelude.{
  ℕ, zero, suc, ◌<◌, ◌≡◌, refl, List, [], ◌∷◌, ◌++◌, Option, none, some, Bool, true, false, not,
  arith, if◌then◌else◌, get_or, replicate, ◌==◌,
}

-- The bytes of a text in ASCII.
abbrev codes : String → List ℕ
codes String.[] = []
codes (String.◌∷◌ c s) = code c ∷ codes s

abbrev letters : List ℕ
letters = codes "ABCDEFGHIJKLMNOPQRSTUVWXYZabcdefghijklmnopqrstuvwxyz0123456789+/"

-- `ch64[i]`; the code reads it below 64 only.
unfoldable pub ch64 : ℕ → ℕ
ch64 i = get_or letters i 0

-- `n` entries that count up from `v`.
abbrev run_from : ℕ → ℕ → List (Option ℕ)
run_from v zero = []
run_from v (suc n) = some v ∷ run_from (suc v) n

-- An entry -1 is `none`.
abbrev reverse_entries : List (Option ℕ)
reverse_entries =
    replicate 43 none
    ++ (some 62 ∷ replicate 3 none)
    ++ (some 63 ∷ [])
    ++ run_from 52 10
    ++ replicate 7 none
    ++ run_from 0 26
    ++ replicate 6 none
    ++ run_from 26 26
    ++ replicate 133 none

unfoldable pub b64_reverse_table : ℕ → Option ℕ
b64_reverse_table p = get_or reverse_entries p none

-- A test on each sextet, by evaluation: the numbers under `k`.
every_under : (ℕ → Bool) → ℕ → Bool
every_under test zero = true
every_under test (suc k) = if test k then every_under test k else false

every_under→test : (test : ℕ → Bool) (k i : ℕ) → i < k → every_under test k ≡ true → test i ≡ true
unfolding every_under
every_under→test test zero i under e = elim under [ ]
every_under→test test (suc k) i under e = ground (arith, every_under→test test k i)

is_entry : ℕ → Option ℕ → Bool
is_entry i none = false
is_entry i (some v) = i == v

is_entry→eq : (i : ℕ) (o : Option ℕ) → is_entry i o ≡ true → o ≡ some i
unfolding is_entry
is_entry→eq i none h = cc
is_entry→eq i (some v) h = ground arith

inverse_table : every_under (λ i. is_entry i (b64_reverse_table (ch64 i))) 64 ≡ true
unfolding every_under is_entry b64_reverse_table ch64
inverse_table = refl

pub b64_reverse_table-ch64 : (i : ℕ) → i < 64 → b64_reverse_table (ch64 i) ≡ some i
b64_reverse_table-ch64 i h = is_entry→eq i _ (every_under→test _ 64 i h inverse_table)

no_padding_table : every_under (λ i. not (ch64 i == b'=')) 64 ≡ true
unfolding every_under ch64
no_padding_table = refl

pub ch64-ne-padding : (i : ℕ) → i < 64 → (ch64 i == b'=') ≡ false
ch64-ne-padding i h =
    ground (arith, every_under→test (λ i. not (ch64 i == b'=')) 64 i h no_padding_table)
