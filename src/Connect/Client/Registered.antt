-- ===== src/Connect/Client/Registered.antt =====
-- A connection is among the servers exactly while it is logged in as one.
use gpush.Prelude.{
  ℕ, suc, ◌+◌, ◌-◌, ◌≡◌, ◌≢◌, refl, sym, ap, ◌∙◌, inl, inr, List, [], ◌∷◌, ◌++◌, some, Bool, true,
  false, if◌then◌else◌, Bool-cases, arith, ◌==◌,
}
use gpush.Prelude.Int32.{positive}
use gpush.Connect.TypeMap.{SvList, add_server, del_server, erase}
use gpush.Connect.Client.{Status, status_init, status_login, CliCon, World, Env, del_session}
use gpush.Connect.Client.Packet.{handle_packet}
use gpush.Connect.Client.Change.{Change, same, failed, logged_in, Status-cases}
use gpush.Connect.Client.Effect.{handle_packet-Change}

-- How often a connection is in a list.
abbrev pub times : ℕ → List ℕ → ℕ
times c [] = 0
times c (x ∷ xs) = if x == c then suc (times c xs) else times c xs

times-append : (c : ℕ) (xs ys : List ℕ) → times c (xs ++ ys) ≡ times c xs + times c ys
times-append c [] ys = omega arith
times-append c (x ∷ xs) ys = ground (arith, times-append c xs ys)

times-erase : (c : ℕ) (xs : List ℕ) → times c (erase c xs) ≡ times c xs - 1
unfolding erase
times-erase c [] = omega arith
times-erase c (x ∷ xs) = elim (Bool-cases (x == c)) [
  | inl e ↦ rw e (omega arith)
  | inr e ↦ rw e (rw e (times-erase c xs))
]

times-erase_other : (c d : ℕ) (xs : List ℕ) → c ≢ d → times d (erase c xs) ≡ times d xs
unfolding erase
times-erase_other c d [] n = refl
times-erase_other c d (x ∷ xs) n = elim (Bool-cases (x == c)) [
  | inl e ↦ ground (arith, times-erase_other c d xs n)
  | inr e ↦ ground (arith, times-erase_other c d xs n)
]

unfoldable pub expected : Status → ℕ → ℕ
expected status_init type = 0
expected status_login type = if positive type then 1 else 0

once : (c : ℕ) (l : SvList) → times c (add_server c l).svs ≡ times c l.svs + 1
unfolding add_server
once c l = ground (arith, times-append c l.svs (c ∷ []))

one_if : (b : Bool) → b ≡ true → ◌≡◌ {A = ℕ} (if b then 1 else 0) 1
one_if b e = rw e refl

zero_if : (b : Bool) → b ≡ false → ◌≡◌ {A = ℕ} (if b then 1 else 0) 0
zero_if b e = rw e refl

not_positive : (type : ℕ) → (type == 0) ≡ true → ◌≡◌ {A = ℕ} (if positive type then 1 else 0) 0
not_positive type z = ground arith

if_true : (b : Bool) (l m : SvList) → b ≡ true → (if b then l else m) ≡ l
if_true b l m e = rw e refl

if_false : (b : Bool) (l m : SvList) → b ≡ false → (if b then l else m) ≡ m
if_false b l m e = rw e refl

module _ {C : Type 0} where
  unfoldable pub Registered : World C → Type 0
  unfolding expected
  Registered w = times w.con.address w.servers.svs ≡ expected w.con.status w.con.sess.type

  entering :
      (w w' : World C)
      → w'.servers
        ≡ (if positive w'.con.sess.type then add_server w.con.address w.servers else w.servers)
      → times w.con.address w.servers.svs ≡ 0
      → times w.con.address w'.servers.svs ≡ (if positive w'.con.sess.type then 1 else 0)
  entering w w' s r = elim (Bool-cases (positive w'.con.sess.type)) [
    | inl e ↦ rw e (
        ap (λ (l : SvList). times w.con.address l.svs)
          (s ∙ if_true (positive w'.con.sess.type) _ _ e)
        ∙ once w.con.address w.servers
        ∙ omega arith)
    | inr e ↦ rw e (
        ap (λ (l : SvList). times w.con.address l.svs)
          (s ∙ if_false (positive w'.con.sess.type) _ _ e)
        ∙ r)
  ]

  pub Change-Registered : (w w' : World C) → Change w w' → Registered w → Registered w'
  unfolding Registered expected
  Change-Registered w w' (same s) r =
      let a = s.address in
      let t = s.type in
      let st = s.status in
      let sv = s.servers in
      ap (λ (a : ℕ). times a w'.servers.svs) s.address
      ∙ ap (λ (l : SvList). times w.con.address l.svs) s.servers
      ∙ r
      ∙ ap (λ (st : Status). expected st w.con.sess.type) (sym s.status)
      ∙ ap (λ (t : ℕ). expected w'.con.status t) (sym s.type)
  Change-Registered w w' (failed a i i' s) r =
      ap (λ (a : ℕ). times a w'.servers.svs) a
      ∙ ap (λ (l : SvList). times w.con.address l.svs) s
      ∙ r
      ∙ ap (λ (st : Status). expected st w.con.sess.type) i
      ∙ ap (λ (st : Status). expected st w'.con.sess.type) (sym i')
  Change-Registered w w' (logged_in a i l s) r =
      ap (λ (a : ℕ). times a w'.servers.svs) a
      ∙ entering w w' s (r ∙ ap (λ (st : Status). expected st w.con.sess.type) i)
      ∙ ap (λ (st : Status). expected st w'.con.sess.type) (sym l)

  -- The other connections are as often among the servers as they were.
  pub Change-others :
      (w w' : World C) (d : ℕ)
      → Change w w'
      → w.con.address ≢ d
      → times d w'.servers.svs ≡ times d w.servers.svs
  unfolding add_server
  Change-others w w' d (same s) n = ap (λ (l : SvList). times d l.svs) s.servers
  Change-others w w' d (failed a i i' s) n = ap (λ (l : SvList). times d l.svs) s
  Change-others w w' d (logged_in a i l s) n = elim (Bool-cases (positive w'.con.sess.type)) [
    | inl e ↦
        ap (λ (l : SvList). times d l.svs) (s ∙ if_true (positive w'.con.sess.type) _ _ e)
        ∙ ground (arith, times-append d w.servers.svs (w.con.address ∷ []))
    | inr e ↦ ap (λ (l : SvList). times d l.svs) (s ∙ if_false (positive w'.con.sess.type) _ _ e)
  ]

  -- The destructor of another connection leaves a connection as often among the servers as it was.
  del_session-others :
      (E : Env C) (w : World C) (d : ℕ)
      → w.con.address ≢ d
      → times d (del_session E w).servers.svs ≡ times d w.servers.svs
  unfolding del_session del_server
  del_session-others E w d n = elim (Status-cases w.con.status) [
    | inl i ↦ rw (i, del_session) refl
    | inr i ↦ elim (Bool-cases (w.con.sess.type == 0)) [
      | inl z ↦ rw (i, del_session) (rw z refl)
      | inr z ↦ elim (Bool-cases (positive w.con.sess.type)) [
        | inl e ↦
            rw (i, del_session) (rw z (rw e (times-erase_other w.con.address d w.servers.svs n)))
        | inr e ↦ rw (i, del_session) (rw z (rw e refl))
      ]
    ]
  ]

  -- What can happen while a connection lives: it gets a packet, or a connection at another address does,
  -- or such a connection is destroyed. The other one, `v`, has the same servers, and leaves the
  -- connection itself as it is; what else it does to the world does not matter.
  pub data Reaches (E : Env C) (w : World C) : World C → Type 0 where
    starts : Reaches E w w
    gets :
        (w1 w2 : World C) (now later : ℕ) (req : List ℕ) (ret : ℕ)
        → Reaches E w w1
        → handle_packet E now later w1 req ≡ some (w2, ret)
        → Reaches E w w2
    other_gets :
        (w1 w2 v v' : World C) (now later : ℕ) (req : List ℕ) (ret : ℕ)
        → Reaches E w w1
        → v.servers ≡ w1.servers
        → v.con.address ≢ w1.con.address
        → handle_packet E now later v req ≡ some (v', ret)
        → w2.con ≡ w1.con
        → w2.servers ≡ v'.servers
        → Reaches E w w2
    other_dies :
        (w1 w2 v : World C)
        → Reaches E w w1
        → v.servers ≡ w1.servers
        → v.con.address ≢ w1.con.address
        → w2.con ≡ w1.con
        → w2.servers ≡ (del_session E v).servers
        → Reaches E w w2

  -- A connection that is as it was, and as often among the servers, is so as often as it should be.
  kept-Registered :
      (w1 w2 : World C)
      → w2.con ≡ w1.con
      → times w1.con.address w2.servers.svs ≡ times w1.con.address w1.servers.svs
      → Registered w1
      → Registered w2
  unfolding Registered
  kept-Registered w1 w2 c t r =
      ap (λ (con : CliCon). times con.address w2.servers.svs) c
      ∙ t
      ∙ r
      ∙ ap (λ (con : CliCon). expected con.status con.sess.type) (sym c)

  module _ (E : Env C) where
    pub Reaches-Registered : (w w' : World C) → Registered w → Reaches E w w' → Registered w'
    Reaches-Registered w w' r starts = r
    Reaches-Registered w w' r (gets w1 w2 now later req ret h e) =
        Change-Registered w1 w' (handle_packet-Change E now later w1 w' req ret e)
          (Reaches-Registered w w1 r h)
    Reaches-Registered w w' r (other_gets w1 w2 v v' now later req ret h shared n e c s) =
        let there = λ (l : SvList). times w1.con.address l.svs in
        kept-Registered w1 w' c
          (ap there s
            ∙ Change-others v v' w1.con.address (handle_packet-Change E now later v v' req ret e) n
            ∙ ap there shared)
          (Reaches-Registered w w1 r h)
    Reaches-Registered w w' r (other_dies w1 w2 v h shared n c s) =
        let there = λ (l : SvList). times w1.con.address l.svs in
        kept-Registered w1 w' c
          (ap there s ∙ del_session-others E v w1.con.address n ∙ ap there shared)
          (Reaches-Registered w w1 r h)

    -- A connection that is as often among the servers as it should be is not among them any more
    -- when `delSession` has run.
    del_session-Registered :
        (w : World C) → Registered w → times w.con.address (del_session E w).servers.svs ≡ 0
    unfolding Registered del_session del_server expected
    del_session-Registered w r = elim (Status-cases w.con.status) [
      | inl i ↦ rw (i, del_session) (r ∙ ap (λ (st : Status). expected st w.con.sess.type) i)
      | inr i ↦
          let n = r ∙ ap (λ (st : Status). expected st w.con.sess.type) i in
          elim (Bool-cases (w.con.sess.type == 0)) [
            | inl z ↦ rw (i, del_session) (rw z (n ∙ not_positive w.con.sess.type z))
            | inr z ↦ elim (Bool-cases (positive w.con.sess.type)) [
              | inl e ↦
                  rw (i, del_session)
                    (rw z (
                      rw e (
                        omega (
                          arith,
                          times-erase w.con.address w.servers.svs,
                          n ∙ one_if (positive w.con.sess.type) e,
                        ))))
              | inr e ↦ rw (i, del_session) (rw z (rw e (n ∙ zero_if (positive w.con.sess.type) e)))
            ]
          ]
    ]

    -- A connection that was made, and was not among the servers, is not among them when it is
    -- destroyed, whatever packets it got in between, whatever packets connections at other addresses
    -- got, and whichever of those were destroyed.
    pub forgotten :
        (w w' : World C)
        → w.con.status ≡ status_init
        → times w.con.address w.servers.svs ≡ 0
        → Reaches E w w'
        → times w'.con.address (del_session E w').servers.svs ≡ 0
    unfolding Registered expected
    forgotten w w' i z h =
        del_session-Registered w' (
          Reaches-Registered w w' (z ∙ ap (λ (st : Status). expected st w.con.sess.type) (sym i)) h)
