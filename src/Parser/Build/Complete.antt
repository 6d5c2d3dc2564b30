-- ===== src/Parser/Build/Complete.antt =====
-- What `ParsedStateMachine::new` makes of a machine's rows.
use sml_rs.Base.{
  Ensures-ok, ok_eq, err_not_ok, bind_ok, false, if◌then◌else◌, if_true, if_false, ◌≡◌, refl, sym,
  ap, ◌∙◌, subst, inl, inr, Bool-cases, Option-cases, none, List, [], ◌∷◌, Result, ok, err, ◌>>=◌,
}
use sml_rs.Parser.HashMap.{IsEquality, get}
use sml_rs.Parser.Table.{Syntax, EventMapping, EventKey, same_key, TransitionMap}
use sml_rs.Parser.Names.{StateTransition}
use sml_rs.Parser.Build.{BuildError, Collected, expand_wildcard, add_row, add_rows}
use sml_rs.Parser.Build.Expected.{found, expected_step, expected, has_state}
use sml_rs.Parser.Build.States.{mentioned, collect_rows-mentioned}
use sml_rs.Parser.HashMap.{map_values, get-map_values}
use sml_rs.Parser.Table.{ParsedStateMachine}
use sml_rs.Parser.Names.{validate_machine_names}
use sml_rs.Parser.Build.{
  StateMachine, nothing_collected, collect_rows, derive_out_states, starting, find_starting_state,
  no_effect, no_start, many_starts,
}
use sml_rs.Parser.Generics.{new, mark_external, lift_names, check_machine, build}
use sml_rs.Parser.Build.Rows.{add_transition-found}
use sml_rs.Parser.Build.Wildcard.{expand_wildcard-found}
use sml_rs.Parser.Build.Collecting.{NoRows, collect_rows-Keeps}

module _ (x : Syntax) (c : IsEquality x.same_ident) where
  open x use {Ident, DataType, same_ident}

  add_row-found :
      (t : StateTransition x) (all_ : Collected x) (m m' : TransitionMap x) (s : Ident)
      (k : EventKey x)
      → add_row x t all_ m ≡ ok m'
      → found x m' s k ≡ expected_step x all_.states t s k (found x m s k)
  unfolding add_row
  add_row-found t all_ m m' s k h = elim (Bool-cases t.in_state.wildcard) [
    | inl w ↦
        let ((added, m1), h1, h2) =
          bind_ok (expand_wildcard x t all_.state_data all_.states false m)
            (λ r. if r.0 then ok r.1 else err (no_effect t.in_state.ident))
            (sym (if_true w _ _) ∙ h) in
        elim (Bool-cases added) [
          | inl a ↦
              let same : m1 ≡ m' = ok_eq (sym (if_true a _ _) ∙ h2) in
              subst (λ u. found x u s k ≡ expected_step x all_.states t s k (found x m s k)) same
                (expand_wildcard-found x c t all_.state_data all_.states false added m m1 s k h1
                  ∙ sym (if_true w _ _))
          | inr a ↦ absurd (err_not_ok (sym (if_false a _ _) ∙ h2))
        ]
    | inr w ↦
        add_transition-found x c t all_.state_data m m' s k (sym (if_false w _ _) ∙ h)
        ∙ sym (if_false w _ _)
  ]

  add_rows-found :
      (ts : List (StateTransition x)) (all_ : Collected x) (m m' : TransitionMap x) (s : Ident)
      (k : EventKey x)
      → add_rows x ts all_ m ≡ ok m'
      → found x m' s k ≡ expected x all_.states ts s k (found x m s k)
  unfolding add_rows
  add_rows-found [] all_ m m' s k h = ap (λ u. found x u s k) (sym (ok_eq h))
  add_rows-found (t ∷ ts) all_ m m' s k h =
      let (m1, h1, h2) = bind_ok (add_row x t all_ m) (add_rows x ts all_) h in
      add_rows-found ts all_ m1 m' s k h2
      ∙ ap (λ rows. expected x all_.states ts s k rows) (add_row-found t all_ m m1 s k h1)

  -- A change of other fields of the mappings changes no row.
  map_values-found :
      (f : EventMapping x → EventMapping x) (m : TransitionMap x) (s : Ident) (k : EventKey x)
      → ((v : EventMapping x) → (f v).transitions ≡ v.transitions)
      → found x (map_values (map_values f) m) s k ≡ found x m s k
  map_values-found f m s k same = elim (Option-cases (get same_ident m s)) [
    | inl e ↦ rw (get-map_values, e)
    | inr (p, e) ↦ elim (Option-cases (get (same_key x) p k)) [
      | inl q ↦ rw (get-map_values, e, get-map_values, q)
      | inr (v, q) ↦ rw (get-map_values, e, get-map_values, q, same v)
    ]
  ]

  -- The one row whose source is the start.
  abbrev pub StartsAt : List (StateTransition x) → Ident → Type 0
  StartsAt rows s = (t : StateTransition x) × (starting x rows ≡ t ∷ []) × (s ≡ t.in_state.ident)

  find_starting_state-StartsAt :
      (rows : List (StateTransition x)) (s : Ident)
      → find_starting_state x rows ≡ ok s
      → StartsAt rows s
  unfolding find_starting_state
  find_starting_state-StartsAt rows s h = go (starting x rows) refl h
    where
      go :
          (found_rows : List (StateTransition x))
          → starting x rows ≡ found_rows
          → elim found_rows as (λ _. Result Ident (BuildError x)) [
            | [] ↦ err no_start
            | t ∷ more ↦ elim more as (λ _. Result Ident (BuildError x)) [
              | [] ↦ ok t.in_state.ident
              | _ ∷ _ ↦ err many_starts
            ]
          ]
            ≡ ok s
          → StartsAt rows s
      go [] e k = absurd (err_not_ok k)
      go (t ∷ []) e k = (t, e, sym (ok_eq k))
      go (t ∷ u ∷ more) e k = absurd (err_not_ok k)

  -- What a machine has after its rows were read.
  record IsBuilt (rows : List (StateTransition x)) (p : ParsedStateMachine x) : Type 0 where
    starts : StartsAt rows p.starting_state
    rows_found :
        (s : Ident) (k : EventKey x)
        → found x p.states_events_mapping s k ≡ expected x p.states rows s k none
    states_named : (s : Ident) → has_state x p.states s ≡ mentioned x rows s

  -- The machine that `build` puts together.
  abbrev assemble :
      List (StateTransition x) → Ident → Collected x → TransitionMap x → ParsedStateMachine x
  assemble rows s a m = record {
    states = a.states;
    starting_state = s;
    state_data = a.state_data;
    events = a.events;
    event_data = a.event_data;
    states_events_mapping = mark_external x rows m;
  }

  assemble-IsBuilt :
      (rows : List (StateTransition x)) (s : Ident) (a : Collected x) (m : TransitionMap x)
      → find_starting_state x rows ≡ ok s
      → collect_rows x rows (nothing_collected x) ≡ ok a
      → add_rows x rows a a.states_events_mapping ≡ ok m
      → IsBuilt rows (assemble rows s a m)
  unfolding mark_external
  assemble-IsBuilt rows s a m h1 h2 h3 =
      let empty : NoRows x c a.states_events_mapping =
        Ensures-ok (collect_rows-Keeps x c rows (nothing_collected x) (λ s' k. unfold get in refl))
          h2 in
      record {
        starts = find_starting_state-StartsAt rows s h1;
        rows_found = λ s' k.
            map_values-found _ m s' k (λ v. refl)
            ∙ add_rows-found rows a a.states_events_mapping m s' k h3
            ∙ ap (λ r. expected x a.states rows s' k r) (empty s' k);
        states_named = collect_rows-mentioned x c rows a h2;
      }

  build-IsBuilt :
      (rows : List (StateTransition x)) (p : ParsedStateMachine x)
      → build x rows ≡ ok p
      → IsBuilt rows p
  unfolding build
  build-IsBuilt rows p h =
      let add_all : Collected x → Result (TransitionMap x) (BuildError x) =
        λ a. add_rows x rows a a.states_events_mapping in
      let (u, h0, k0) =
        bind_ok (lift_names x (validate_machine_names x rows))
          (λ _. find_starting_state x rows >>= λ s.
            collect_rows x rows (nothing_collected x) >>= λ a.
            add_all a >>= λ m. ok (assemble rows s a m))
          h in
      let (s, h1, k1) =
        bind_ok (find_starting_state x rows)
          (λ s. collect_rows x rows (nothing_collected x) >>= λ a.
            add_all a >>= λ m. ok (assemble rows s a m))
          k0 in
      let (a, h2, k2) =
        bind_ok (collect_rows x rows (nothing_collected x))
          (λ a. add_all a >>= λ m. ok (assemble rows s a m)) k1 in
      let (m, h3, k3) = bind_ok (add_all a) (λ m. ok (assemble rows s a m)) k2 in
      subst (λ q. IsBuilt rows q) (ok_eq k3) (assemble-IsBuilt rows s a m h1 h2 h3)

  new-IsBuilt :
      (sm : StateMachine x) (p : ParsedStateMachine x)
      → new x sm ≡ ok p
      → IsBuilt (derive_out_states x sm.transitions) p
  unfolding new
  new-IsBuilt sm p h =
      let (u, h1, h2) =
        bind_ok (check_machine x sm) (λ _. build x (derive_out_states x sm.transitions)) h in
      build-IsBuilt (derive_out_states x sm.transitions) p h2

  -- A machine is accepted only with exactly one row whose source is marked as the start, and its
  -- starting state is that source.
  pub new-StartsAt :
      (sm : StateMachine x) (p : ParsedStateMachine x)
      → new x sm ≡ ok p
      → StartsAt (derive_out_states x sm.transitions) p.starting_state
  new-StartsAt sm p h = (new-IsBuilt sm p h).starts

  -- For each state and each event, an accepted machine holds exactly the rows that apply, in the
  -- order of the table: each row that names the state, and a wildcard row in every state of the
  -- machine, but only where no row stands before it. The states of the machine are exactly those that
  -- rows name: as the source, if that is no wildcard, or as the target, if the row is not internal.
  pub new-found :
      (sm : StateMachine x) (p : ParsedStateMachine x) (s : Ident) (k : EventKey x)
      → new x sm ≡ ok p
      → (found x p.states_events_mapping s k
          ≡ expected x p.states (derive_out_states x sm.transitions) s k none)
        × (has_state x p.states s ≡ mentioned x (derive_out_states x sm.transitions) s)
  new-found sm p s k h = let b = new-IsBuilt sm p h in (b.rows_found s k, b.states_named s)
