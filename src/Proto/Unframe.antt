-- ===== src/Proto/Unframe.antt =====
-- The command and the body of a packet that either server makes.
use gpush.Prelude.{ℕ, ◌^◌, ◌<◌, ◌≡◌, refl, ap, ◌∙◌, List, drop}
use gpush.Proto.Word.{bytes_of, word_at, word_of-bytes_of, htonl, htonl-htonl, htonl_bound}
use gpush.Proto.{Head, sizeof_head, head_bytes, head_at, construct_packet, logic_construct_packet}

pub drop-construct_packet :
    (h : Head) (body : List ℕ) → drop sizeof_head (construct_packet h body) ≡ body
unfolding construct_packet head_bytes bytes_of
drop-construct_packet h body = refl

pub drop-logic_construct_packet :
    (h : Head) (body : List ℕ) → drop sizeof_head (logic_construct_packet h body) ≡ body
unfolding logic_construct_packet head_bytes bytes_of
drop-logic_construct_packet h body = refl

pub cmd-construct_packet :
    (h : Head) (body : List ℕ)
    → h.cmd < 2 ^ 32
    → htonl (head_at (construct_packet h body)).cmd ≡ h.cmd
unfolding construct_packet head_at head_bytes bytes_of word_at
cmd-construct_packet h body small =
    ap htonl (word_of-bytes_of (htonl h.cmd) (htonl_bound h.cmd)) ∙ htonl-htonl h.cmd small

pub cmd-logic_construct_packet :
    (h : Head) (body : List ℕ)
    → h.cmd < 2 ^ 32
    → htonl (head_at (logic_construct_packet h body)).cmd ≡ h.cmd
unfolding logic_construct_packet head_at head_bytes bytes_of word_at
cmd-logic_construct_packet h body small =
    ap htonl (word_of-bytes_of (htonl h.cmd) (htonl_bound h.cmd)) ∙ htonl-htonl h.cmd small
