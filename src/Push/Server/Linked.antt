-- ===== src/Push/Server/Linked.antt =====
-- The map of an event loop leads to connections that live.
use gpush.Prelude.{ℕ, ◌≡◌, ◌≢◌, ap, sym, ◌∙◌, inl, inr, some, true}
use mathlib.Core.Path.{subst}
use gpush.Net.Client.{connected}
use gpush.Net.EventLoop.{ConnectionMap, get_connection, del_connection, set_connection}
use gpush.Net.EventLoop.Lookup.{
  get-cons, get-cons_other, get-del_other, get-set_other, get-set, same_or_other,
}
use gpush.Net.EventLoop.ConMap.{Unique, get-del, Unique-del}
use gpush.Push.Server.{SvCon, Svlist, add_server, del_server, update}

-- A connection to the server `id` that is connected and has logged in.
pub record Serves (id : ℕ) (c : SvCon) : Type 0 where
  pub server : c.con_serv_id ≡ id
  pub login : c.login ≡ true
  pub online : c.status ≡ connected

abbrev pub Leads : ℕ → ℕ → Svlist → Type 0
Leads id p l = (c : SvCon) × (get_connection p l.cons ≡ some c) × Serves id c

-- Each id is in the map once and leads to a connection of its server that lives.
pub record Linked (l : Svlist) : Type 0 where
  pub unique : Unique l.svcons
  pub leads : (id p : ℕ) → get_connection id l.svcons ≡ some p → Leads id p l

-- No id leads to the connection.
abbrev pub Unlisted : ℕ → Svlist → Type 0
Unlisted p l = (id q : ℕ) → get_connection id l.svcons ≡ some q → p ≢ q

-- Changing a connection that no id leads to.
pub outside-Linked :
    (p : ℕ) (l : Svlist) (cons : ConnectionMap SvCon)
    → Linked l
    → Unlisted p l
    → ((q : ℕ) → p ≢ q → get_connection q cons ≡ get_connection q l.cons)
    → Linked (record l { cons = cons })
outside-Linked p l cons k off same = record {
  unique = k.unique;
  leads =
      λ id q e. let (c, lives, serves) = k.leads id q e in (c, same q (off id q e) ∙ lives, serves);
}

-- A connection keeps its server, and what it has that the map asks for.
pub keep-Linked :
    (p : ℕ) (c c' : SvCon) (l : Svlist)
    → get_connection p l.cons ≡ some c
    → ((id : ℕ) → Serves id c → Serves id c')
    → Linked l
    → Linked (update p c' l)
unfolding update
keep-Linked p c c' l here still k = record {
  unique = k.unique;
  leads = λ id q e.
      let (d, lives, serves) = k.leads id q e in
      elim (same_or_other p q) [
        | inl same ↦
            let was : d ≡ c = cc (lives, here, same) in
            (
              c',
              ap (λ i. get_connection i (set_connection p c' l.cons)) (sym same)
                  ∙ get-set p c c' l.cons here,
              still id (subst (Serves id) was serves),
            )
        | inr other ↦ (d, get-set_other q p c' l.cons other ∙ lives, serves)
      ];
}

pub del_server-Linked : (id : ℕ) (l : Svlist) → Linked l → Linked (del_server id l)
unfolding del_server
del_server-Linked id l k = record {
  unique = Unique-del id l.svcons k.unique;
  leads = λ j q e. elim (same_or_other id j) [
    | inl same ↦ absurd (cc (e, same, get-del id l.svcons k.unique))
    | inr other ↦ k.leads j q (sym (get-del_other j id l.svcons other) ∙ e)
  ];
}

-- The connection lives; its server is the one that `c` names.
abbrev pub Lives : ℕ → SvCon → Svlist → Type 0
Lives p c l = (d : SvCon) × (get_connection p l.cons ≡ some d) × (d.con_serv_id ≡ c.con_serv_id)

pub del_server-Unlisted :
    (p : ℕ) (c : SvCon) (l : Svlist)
    → Lives p c l
    → Linked l
    → Unlisted p (del_server c.con_serv_id l)
unfolding del_server
del_server-Unlisted p c l (b, here, mine) k id q e same = elim (same_or_other c.con_serv_id id) [
  | inl gone ↦ cc (e, gone, get-del c.con_serv_id l.svcons k.unique)
  | inr other ↦
      let (d, lives, serves) =
        k.leads id q (sym (get-del_other id c.con_serv_id l.svcons other) ∙ e) in
      let was : d ≡ b = cc (lives, here, same) in
      other (sym mine ∙ ap (λ (x : SvCon). x.con_serv_id) (sym was) ∙ serves.server)
]

pub add_server-Linked :
    (id p : ℕ) (c : SvCon) (l : Svlist)
    → get_connection p l.cons ≡ some c
    → Serves id c
    → Linked l
    → Linked (add_server id p l)
unfolding add_server
add_server-Linked id p c l here serves k = record {
  unique = (get-del id l.svcons k.unique, Unique-del id l.svcons k.unique);
  leads = λ j q e. elim (same_or_other id j) [
    | inl same ↦
        let to : p ≡ q = cc (e, same, get-cons id p (del_connection id l.svcons)) in
        (c, ap (λ i. get_connection i l.cons) (sym to) ∙ here, subst (λ i. Serves i c) same serves)
    | inr other ↦ k.leads j q (
        sym (get-del_other j id l.svcons other)
        ∙ sym (get-cons_other j id p (del_connection id l.svcons) other)
        ∙ e)
  ];
}
