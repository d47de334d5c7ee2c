-- ===== src/Sdk/Client/Round.antt =====
-- A round of the loop over the packets in the client's ring.
use gpush.Prelude.{
  ℕ, zero, suc, ◌+◌, ◌-◌, ◌%◌, ◌^◌, ◌<◌, ◌≤◌, ◌≡◌, ◌≢◌, ◌⊎◌, refl, ap, sym, ◌∙◌, inl, inr, List,
  ◌++◌, Option, none, some, true, false, ltb, arith, length, take, drop, length-append, length-take,
  length-drop, take-append_le, take_all, drop-append_ge, Bool-cases,
}
use gpush.Prelude.Int32.{less}
use gpush.Proto.{Head, head_at, head_bytes, sizeof_head, construct_packet}
use gpush.Proto.Word.{bytes_of, word_at, word_of-bytes_of, htonl, htonl-htonl, htonl_bound}
use gpush.Proto.Framing.{length-construct_packet}
use gpush.Sdk.RingBuf.{RingBuf, peek, read}
use gpush.Sdk.RingBuf.Places.{IsValid, contents, length-contents}
use gpush.Sdk.RingBuf.Queue.{peek-take, read-contents}
use gpush.Sdk.Client.Packets.{Outcome, waits, fault, spinning, packet_loop}

-- The command of a packet at the front of a stream, and its length.
front_cmd :
    (h : Head) (body rest : List ℕ)
    → h.cmd < 2 ^ 32
    → htonl (head_at (take sizeof_head (construct_packet h body ++ rest))).cmd ≡ h.cmd
unfolding construct_packet head_at head_bytes bytes_of word_at
front_cmd h body rest small =
    ap htonl (word_of-bytes_of (htonl h.cmd) (htonl_bound h.cmd)) ∙ htonl-htonl h.cmd small

front_len :
    (h : Head) (body rest : List ℕ)
    → sizeof_head + length body < 2 ^ 31
    → htonl (head_at (take sizeof_head (construct_packet h body ++ rest))).len
      ≡ sizeof_head + length body
unfolding construct_packet head_at head_bytes bytes_of word_at
front_len h body rest small =
    ap htonl (
      word_of-bytes_of (htonl ((sizeof_head + length body) % 2 ^ 32))
        (htonl_bound ((sizeof_head + length body) % 2 ^ 32)))
    ∙ ap (λ (n : ℕ). htonl (htonl n)) (omega arith)
    ∙ htonl-htonl (sizeof_head + length body) (omega arith)

drop_front :
    (h : Head) (body rest : List ℕ)
    → drop sizeof_head (construct_packet h body ++ rest) ≡ body ++ rest
unfolding construct_packet head_bytes bytes_of
drop_front h body rest = refl

there_lem : (size len : ℕ) → len ≤ size → size < 2 ^ 31 → less size len ≡ false
there_lem size len h small = ground arith

least_lem : (len : ℕ) → sizeof_head ≤ len → len < 2 ^ 31 → less len sizeof_head ≡ false
least_lem len h small = ground arith

-- The beginning of a packet: less than a head, or a head whose length is not there yet.
unfoldable pub IsPartial : List ℕ → Type 0
IsPartial rest =
    (length rest < sizeof_head)
    ⊎ (less (length rest) (htonl (head_at (take sizeof_head rest)).len) ≡ true)

on_handled :
    {S : Type 0} (o : Option S) (go : S → Outcome S)
    → ((s : S) → go s ≢ spinning)
    → (elim o as (λ _. Outcome S) [ none ↦ fault | some s' ↦ go s' ]) ≢ spinning
on_handled none go h = λ e. absurd (cc e)
on_handled (some s') go h = h s'

module _ {S : Type 0} (handle : S → ℕ → List ℕ → Option S) where
  abbrev pub due : RingBuf → ℕ
  due b = htonl (head_at (peek b sizeof_head)).len

  pub waiting_lem :
      (rounds : ℕ) (b : RingBuf) (s : S)
      → IsValid b
      → IsPartial (contents b)
      → packet_loop handle (suc rounds) b s ≡ waits b s
  unfolding packet_loop IsPartial
  waiting_lem rounds b s v (inl few) =
      let seen = peek-take b sizeof_head v in
      let short : ltb (length (peek b sizeof_head)) sizeof_head ≡ true =
        ground (arith, ap length seen, length-take sizeof_head (contents b)) in
      rw (short, packet_loop) refl
  waiting_lem rounds b s v (inr long) =
      let seen = peek-take b sizeof_head v in
      let size = length-contents b v in
      let more : less b.size (htonl (head_at (peek b sizeof_head)).len) ≡ true =
        ap (λ (n : ℕ). less n (due b)) (sym size)
        ∙ ap (λ (l : List ℕ). less (length (contents b)) (htonl (head_at l).len)) seen
        ∙ long in
      elim (Bool-cases (ltb (length (peek b sizeof_head)) sizeof_head)) [
        | inl short ↦ rw (short, packet_loop) refl
        | inr enough ↦ rw (enough, more, packet_loop) refl
      ]

  pub loop_step :
      (rounds : ℕ) (b : RingBuf) (s : S)
      → ltb (length (peek b sizeof_head)) sizeof_head ≡ false
      → less b.size (due b) ≡ false
      → less (due b) sizeof_head ≡ false
      → packet_loop handle (suc rounds) b s
        ≡ (elim (handle s
            (htonl (head_at (peek b sizeof_head)).cmd)
            (read (read b sizeof_head).1 (due b - sizeof_head)).0) [
              | none ↦ fault
              | some s' ↦
                  packet_loop handle rounds (read (read b sizeof_head).1 (due b - sizeof_head)).1 s'
            ])
  unfolding packet_loop
  loop_step rounds b s head there least = rw (head, there, least, packet_loop) refl

  pub packet_lem :
      (rounds : ℕ) (b : RingBuf) (s : S) (h : Head) (body rest : List ℕ)
      → IsValid b
      → length (contents b) < 2 ^ 31
      → h.cmd < 2 ^ 32
      → contents b ≡ construct_packet h body ++ rest
      → (b' : RingBuf) × IsValid b'
        × (contents b' ≡ rest)
        × (packet_loop handle (suc rounds) b s ≡ (elim (handle s h.cmd body) [
          | none ↦ fault
          | some s' ↦ packet_loop handle rounds b' s'
        ]))
  packet_lem rounds b s h body rest v small cmd e =
      let len = due b in
      let seen : peek b sizeof_head ≡ take sizeof_head (construct_packet h body ++ rest) =
        peek-take b sizeof_head v ∙ ap (take sizeof_head) e in
      let total : length (contents b) ≡ sizeof_head + length body + length rest = omega (
        arith,
        ap length e,
        length-append (construct_packet h body) rest,
        length-construct_packet h body,
      ) in
      let len_lem : len ≡ sizeof_head + length body =
        ap (λ (l : List ℕ). htonl (head_at l).len) seen
        ∙ front_len h body rest (omega (arith, total)) in
      let cmd_lem : htonl (head_at (peek b sizeof_head)).cmd ≡ h.cmd =
        ap (λ (l : List ℕ). htonl (head_at l).cmd) seen ∙ front_cmd h body rest cmd in
      let size = length-contents b v in
      let headless = (read b sizeof_head).1 in
      let (front, left, v') = read-contents b sizeof_head v in
      let behind : contents headless ≡ body ++ rest =
        left ∙ ap (drop sizeof_head) e ∙ drop_front h body rest in
      let (text, end, v'') = read-contents headless (len - sizeof_head) v' in
      let n : len - sizeof_head ≡ length body = omega (arith, len_lem) in
      let body_lem : (read headless (len - sizeof_head)).0 ≡ body =
        text
        ∙ ap (take (len - sizeof_head)) behind
        ∙ take-append_le (len - sizeof_head) body rest (omega (arith, n))
        ∙ take_all (len - sizeof_head) body (omega (arith, n)) in
      let head : length (peek b sizeof_head) ≡ sizeof_head = omega (
        arith,
        ap length (peek-take b sizeof_head v),
        length-take sizeof_head (contents b),
        total,
      ) in
      (
        (read headless (len - sizeof_head)).1,
        v'',
        end
            ∙ ap (drop (len - sizeof_head)) behind
            ∙ drop-append_ge (len - sizeof_head) 0 body rest (omega (arith, n)),
        loop_step rounds b s (ground (arith, head))
              (there_lem b.size len (omega (arith, len_lem, total, size, small))
                (omega (arith, len_lem, total, size, small)))
              (least_lem len (omega (arith, len_lem)) (omega (arith, len_lem, total, small)))
            ∙ (rw (cmd_lem, body_lem) refl),
      )

  shorter :
      (b : RingBuf)
      → IsValid b
      → ltb (length (peek b sizeof_head)) sizeof_head ≡ false
      → let next = (read (read b sizeof_head).1 (due b - sizeof_head)).1 in
        IsValid next × (length (contents next) < length (contents b))
  shorter b v enough =
      let (front, left, v') = read-contents b sizeof_head v in
      let (text, end, v'') = read-contents (read b sizeof_head).1 (due b - sizeof_head) v' in
      let twelve : sizeof_head ≤ length (contents b) =
        ground
          (arith, ap length (peek-take b sizeof_head v), length-take sizeof_head (contents b)) in
      (
        v'',
        omega (
          arith,
          ap length end,
          ap length left,
          length-drop sizeof_head (contents b),
          length-drop (due b - sizeof_head) (contents (read b sizeof_head).1),
        ),
      )

  -- Whatever the bytes are, the loop ends in as many rounds as there are bytes, and one.
  pub packet_loop_ends :
      (rounds : ℕ) (b : RingBuf) (s : S)
      → IsValid b
      → length (contents b) < rounds
      → packet_loop handle rounds b s ≢ spinning
  unfolding packet_loop
  packet_loop_ends zero b s v few = absurd (omega arith)
  packet_loop_ends (suc rounds) b s v few =
      elim (Bool-cases (ltb (length (peek b sizeof_head)) sizeof_head)) [
        | inl short ↦ rw (short, packet_loop) (λ e. absurd (cc e))
        | inr enough ↦ elim (Bool-cases (less b.size (due b))) [
          | inl more ↦ rw (enough, more, packet_loop) (λ e. absurd (cc e))
          | inr there ↦ elim (Bool-cases (less (due b) sizeof_head)) [
            | inl tiny ↦ rw (enough, there, tiny, packet_loop) (λ e. absurd (cc e))
            | inr least ↦
                let (v', fewer) = shorter b v enough in
                rw (loop_step rounds b s enough there least) (
                  on_handled
                    (handle s (htonl (head_at (peek b sizeof_head)).cmd)
                      (read (read b sizeof_head).1 (due b - sizeof_head)).0)
                    (packet_loop handle rounds
                      (read (read b sizeof_head).1 (due b - sizeof_head)).1)
                    (λ s'. packet_loop_ends rounds _ s' v' (omega (arith, fewer))))
          ]
        ]
      ]
