-- ===== src/Ws/Push/Gone.antt =====
-- Which connections push_ws_updates takes out of the sets.
use Prim.Native.String.{◌++◌ as append}
use serverless_matching_engi.Prelude.{
  String, Bool, true, false, not, ◌&&◌, ◌||◌, Option, none, some, List, [], ◌∷◌, ◌++◌, ◌≡◌, refl,
  sym, ◌∙◌, ap, subst, fun_ext, str_eq, eq_iff, arith, if◌then◌else◌, Bool-cases, inl, inr,
}
use serverless_matching_engi.Ws.Sets.{has, mem, smembers, srem, has-srem, has-del, mem-smembers}
use serverless_matching_engi.Ws.Sessions.{Outside, Sessions}
use serverless_matching_engi.Ws.Sessions.Mirror.{Mirrored, has-leave_all}
use serverless_matching_engi.Ws.Push.{
  Delivery, message, sent, stale_conns, remove_stale, remove_all, push_value, push_channel,
  push_ws_updates,
}

-- The sets of `s'` are those of `s` without the connections that are dropped.
pub record Drops (dropped : String → Bool) (s s' : Sessions) : Type 0 where
  pub subs :
      (ch conn_id : String)
      → has ch conn_id s'.subs ≡ (not (dropped conn_id) && has ch conn_id s.subs)
  pub conns :
      (ch conn_id : String)
      → has conn_id ch s'.conns ≡ (not (dropped conn_id) && has conn_id ch s.conns)
  pub connections :
      (conn_id : String)
      → has "ws:connections" conn_id s'.connections
        ≡ (not (dropped conn_id) && has "ws:connections" conn_id s.connections)

Drops-Mirrored :
    (dropped : String → Bool) (s s' : Sessions) → Drops dropped s s' → Mirrored s → Mirrored s'
Drops-Mirrored dropped s s' h m =
    λ ch d. h.subs ch d ∙ ap (λ b. not (dropped d) && b) (m ch d) ∙ sym (h.conns ch d)

both : (a b c : Bool) → (not b && (not a && c)) ≡ (not (a || b) && c)
both true true c = refl
both true false c = refl
both false b c = refl

Drops-trans :
    (p q : String → Bool) (s s' s'' : Sessions)
    → Drops p s s'
    → Drops q s' s''
    → Drops (λ d. p d || q d) s s''
Drops-trans p q s s' s'' f g = record {
  subs = λ ch d. g.subs ch d ∙ ap (λ b. not (q d) && b) (f.subs ch d) ∙ both (p d) (q d) _;
  conns = λ ch d. g.conns ch d ∙ ap (λ b. not (q d) && b) (f.conns ch d) ∙ both (p d) (q d) _;
  connections =
      λ d. g.connections d ∙ ap (λ b. not (q d) && b) (f.connections d) ∙ both (p d) (q d) _;
}

module _ (out : Outside) (post : String → String → Delivery) where
  remove_stale-Drops :
      (ch stale_id : String) (s : Sessions)
      → Mirrored s
      → Drops (λ d. str_eq stale_id d) s (remove_stale out post ch stale_id s)
  unfolding remove_stale
  remove_stale-Drops ch stale_id s m = record {
    subs = λ x d. ground (
      arith,
      has-leave_all out x d stale_id (smembers stale_id s.conns) (srem ch stale_id s.subs),
      mem-smembers stale_id x s.conns,
      has-srem x d ch stale_id s.subs,
      m x d,
      eq_iff stale_id d,
    );
    conns = λ x d. has-del d x stale_id s.conns;
    connections = λ d. ground (
      arith,
      has-srem "ws:connections" d "ws:connections" stale_id s.connections,
      eq_iff "ws:connections" "ws:connections",
    );
  }

  remove_all-Drops :
      (ch : String) (ids : List String) (s : Sessions)
      → Mirrored s
      → Drops (λ d. mem d ids) s (remove_all out post ch ids s)
  unfolding remove_all mem
  remove_all-Drops ch [] s m = record {
    subs = λ x d. refl;
    conns = λ x d. refl;
    connections = λ d. refl;
  }
  remove_all-Drops ch (i ∷ ids) s m =
      let one = remove_stale-Drops ch i s m in
      Drops-trans (λ d. str_eq i d) (λ d. mem d ids) s (remove_stale out post ch i s)
        (remove_all out post ch ids (remove_stale out post ch i s)) one
        (remove_all-Drops ch ids (remove_stale out post ch i s)
          (Drops-Mirrored (λ d. str_eq i d) s (remove_stale out post ch i s) one m))

  abbrev pub is_gone : Delivery → Bool
  is_gone Delivery.gone = true
  is_gone _ = false

  -- The post of a channel's value to a connection finds it gone.
  abbrev pub goes : Option String → String → String → Bool
  goes none ch d = false
  goes (some val) ch d = not (str_eq val "") && is_gone (post d (message ch val))

  -- A subscriber of the channel that is found gone.
  abbrev pub is_stale : String → Sessions → String → Bool
  is_stale ch s d = has ch d s.subs && goes (out.cached (append "cache:" ch)) ch d

  mem-stale_conns :
      (msg d : String) (subscribers : List String)
      → mem d (stale_conns out post msg subscribers) ≡ (mem d subscribers && is_gone (post d msg))
  unfolding mem stale_conns
  mem-stale_conns msg d [] = refl
  mem-stale_conns msg d (c ∷ cs) = ground (arith, mem-stale_conns msg d cs, eq_iff c d)

  Drops-none : (s : Sessions) → Drops (λ d. false) s s
  Drops-none s = record { subs = λ x d. refl; conns = λ x d. refl; connections = λ d. refl }

  Drops-same :
      (p q : String → Bool) (s s' : Sessions)
      → ((d : String) → p d ≡ q d)
      → Drops p s s'
      → Drops q s s'
  Drops-same p q s s' e h = subst (λ r. Drops r s s') (fun_ext e) h

  and_false : (b : Bool) → false ≡ (b && false)
  and_false true = refl
  and_false false = refl

  push_value-Drops :
      (ch val : String) (s : Sessions)
      → Mirrored s
      → Drops
          (λ d. has ch d s.subs && is_gone (post d (message ch val)))
          s
          (push_value out post ch val s)
  unfolding push_value
  push_value-Drops ch val s m =
      let subscribers = smembers ch s.subs in
      let stale = stale_conns out post (message ch val) subscribers in
      let s' : Sessions = record s {
        posted = s.posted ++ sent out post (message ch val) subscribers;
      } in
      let h = remove_all-Drops ch stale s' m in
      Drops-same (λ d. mem d stale) (λ d. has ch d s.subs && is_gone (post d (message ch val))) s
        (remove_all out post ch stale s')
        (λ d.
          mem-stale_conns (message ch val) d subscribers
          ∙ ap (λ b. b && is_gone (post d (message ch val))) (mem-smembers ch d s.subs))
        (record { subs = h.subs; conns = h.conns; connections = h.connections })

  push_channel-Drops :
      (ch : String) (s : Sessions)
      → Mirrored s
      → Drops (is_stale ch s) s (push_channel out post ch s)
  unfolding push_channel mem
  push_channel-Drops ch s m = by_members (smembers ch s.subs) refl
    where
      by_value :
          (o : Option String)
          → Drops
              (λ d. has ch d s.subs && goes o ch d)
              s
              (elim o [
                | none ↦ s
                | some val ↦ if str_eq val "" then s else push_value out post ch val s
              ])
      by_value none =
          Drops-same (λ d. false) _ s s (λ d. and_false (has ch d s.subs)) (Drops-none s)
      by_value (some val) = elim (Bool-cases (str_eq val "")) [
        | inl e ↦
            rw e (Drops-same (λ d. false) _ s s (λ d. and_false (has ch d s.subs)) (Drops-none s))
        | inr e ↦ rw e (push_value-Drops ch val s m)
      ]

      by_members :
          (subscribers : List String)
          → smembers ch s.subs ≡ subscribers
          → Drops (is_stale ch s) s (elim subscribers [
            | [] ↦ s
            | _ ∷ _ ↦ elim (out.cached (append "cache:" ch)) [
              | none ↦ s
              | some val ↦ if str_eq val "" then s else push_value out post ch val s
            ]
          ])
      by_members [] e =
          Drops-same (λ d. false) _ s s
            (λ d.
              ap (λ b. b && goes (out.cached (append "cache:" ch)) ch d)
                (sym (ap (mem d) e) ∙ mem-smembers ch d s.subs))
            (Drops-none s)
      by_members (c ∷ cs) e = by_value (out.cached (append "cache:" ch))

  -- The connections that a push finds gone: subscribers of one of the three channels.
  abbrev pub is_dropped : String → Sessions → String → Bool
  is_dropped pair_id s d =
      (is_stale (append "orderbook:" pair_id) s d || is_stale (append "trades:" pair_id) s d)
      || is_stale (append "ticker:" pair_id) s d

  stale_later : (g h t : Bool) → (g || ((not g && h) && t)) ≡ (g || (h && t))
  stale_later true h t = refl
  stale_later false h t = refl

  -- A push takes out of every set of subscribers, every list of channels and the set of
  -- connections exactly those connections that subscribed to one of the three channels of the pair
  -- with a value and are gone when it is posted to them, if the families mirrored each other
  -- before; and they still do.
  pub push_ws_updates-Drops :
      (pair_id : String) (s : Sessions)
      → Mirrored s
      → Drops (is_dropped pair_id s) s (push_ws_updates out post pair_id s)
        × Mirrored (push_ws_updates out post pair_id s)
  unfolding push_ws_updates
  push_ws_updates-Drops pair_id s m = (all, Drops-Mirrored (is_dropped pair_id s) s s3 all m)
    where
      book : String
      book = append "orderbook:" pair_id

      trades : String
      trades = append "trades:" pair_id

      ticker : String
      ticker = append "ticker:" pair_id

      s1 : Sessions
      s1 = push_channel out post book s

      s2 : Sessions
      s2 = push_channel out post trades s1

      s3 : Sessions
      s3 = push_channel out post ticker s2

      later :
          (p : String → Bool) (ch : String) (s' : Sessions)
          → Drops p s s'
          → Drops (λ d. p d || is_stale ch s d) s (push_channel out post ch s')
      later p ch s' h =
          Drops-same (λ d. p d || is_stale ch s' d) (λ d. p d || is_stale ch s d) s
            (push_channel out post ch s')
            (λ d.
              ap (λ b. p d || (b && goes (out.cached (append "cache:" ch)) ch d)) (h.subs ch d)
              ∙ stale_later (p d) (has ch d s.subs) (goes (out.cached (append "cache:" ch)) ch d))
            (Drops-trans p (is_stale ch s') s s' (push_channel out post ch s') h
              (push_channel-Drops ch s' (Drops-Mirrored p s s' h m)))

      all : Drops (is_dropped pair_id s) s s3
      all = later _ ticker s2 (later _ trades s1 (push_channel-Drops book s m))
