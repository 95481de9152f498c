-- ===== src/Auth/ApiToken/Cutoff.antt =====
-- What is revoked stays revoked: through whatever revocations follow, on replicas whose clocks differ.
use host_manager.Base.{
  ℕ, ◌+◌, ◌≤◌, Bytes, lookup, lookup-insert, lookup-insert_self, Bool, true, false, ◌||◌, Option,
  none, some, ltb, leb, beq, beq_iff, if◌then◌else◌, ◌≡◌, ◌≢◌, refl, arith, inl, inr, Bool-cases,
  Option-cases,
}
use host_manager.Auth.ClientRegistry.{max}
use host_manager.Auth.ApiToken.Revocation.{
  Entry, Store, Stores, get, revocation_ttl, stamp, record_revocation, revoked_no_earlier_than,
  issued_no_later_than, subject_revocation_key, covers, either_of, revoked, revoke, revoke_subject,
}

no_answer : none ≡ some false → ⊥
no_answer h = cc

not_false : some true ≡ some false → ⊥
not_false h = ground (arith, h)

some_or : (x y : Bool) → some (x || y) ≡ some false → (some x ≡ some false) × (some y ≡ some false)
some_or true y h = absurd (not_false h)
some_or false y h = (refl, h)

either-false :
    (a b : Option Bool) → either_of a b ≡ some false → (a ≡ some false) × (b ≡ some false)
either-false none b h = absurd (no_answer h)
either-false (some x) none h = absurd (no_answer h)
either-false (some x) (some y) h = some_or x y h

module _ (parse : Bytes → Option ℕ) (format : ℕ → Bytes) (digest : Bytes → Bytes)
    (max_ttl : ℕ) where
  -- Revocations by any replicas, each with a time of its own and with failures, while the cache's clock goes on.
  pub data After (c : ℕ) (s : Stores) : ℕ → Stores → Type 0 where
    here : After c s c s
    later : {d : ℕ} {t : Stores} → After c s d t → (e : ℕ) → d ≤ e → After c s e t
    token :
        {d : ℕ} {t : Stores}
        → After c s d t
        → (now : ℕ) (f g : Bool) (jti : Bytes) (ttl : ℕ) (u : Stores)
        → u ≡ (revoke parse format digest max_ttl d now f g jti ttl t).0
        → After c s d u
    subject :
        {d : ℕ} {t : Stores}
        → After c s d t
        → (now : ℕ) (f : Bool) (sub : Bytes) (ttl : ℕ) (u : Stores)
        → u ≡ (revoke_subject parse format digest max_ttl d now f sub ttl t).0
        → After c s d u

  -- The store has a key's revocation of at least a time, until a limit.
  pub Held : ℕ → ℕ → Bytes → Store → Type 0
  Held t limit key s =
      (e : Entry) × (lookup key s ≡ some e)
      × (limit ≤ e.expires_at)
      × ((at : ℕ) × (parse e.value ≡ some at) × (t ≤ at))

  module _ (parse-format : (t : ℕ) → parse (format t) ≡ some t) where
    abbrev written : ℕ → Option Bytes → Bytes
    written now o = stamp parse format digest now o

    stamp_untimed : (now : ℕ) (v : Bytes) → parse v ≡ none → written now (some v) ≡ format now
    unfolding stamp
    stamp_untimed now v n = rw (stamp, n) refl

    stamp_timed :
        (now at : ℕ) (v : Bytes)
        → parse v ≡ some at
        → written now (some v) ≡ (if ltb now at then v else format now)
    unfolding stamp
    stamp_timed now at v e = rw (stamp, e) refl

    stamp_keeps :
        (now at : ℕ) (v : Bytes)
        → parse v ≡ some at
        → (at' : ℕ) × (parse (written now (some v)) ≡ some at') × (at ≤ at') × (now ≤ at')
    stamp_keeps now at v e = elim (Bool-cases (ltb now at)) [
      | inl l ↦ (at, rw (stamp_timed now at v e, l) e, omega arith, ground arith)
      | inr l ↦ (now, rw (stamp_timed now at v e, l) (parse-format now), ground arith, omega arith)
    ]

    stamp_now :
        (now : ℕ) (o : Option Bytes) → (at : ℕ) × (parse (written now o) ≡ some at) × (now ≤ at)
    unfolding stamp
    stamp_now now none = (now, parse-format now, omega arith)
    stamp_now now (some v) = elim (Option-cases (parse v)) [
      | inl n ↦ (now, rw (stamp_untimed now v n) (parse-format now), omega arith)
      | inr (at, e) ↦ let (at', p, _, l) = stamp_keeps now at v e in (at', p, l)
    ]

    abbrev recorded : ℕ → ℕ → Bytes → ℕ → Store → Store
    recorded clock now key ttl s = record_revocation parse format digest max_ttl clock now key ttl s

    record_revocation-Held :
        (clock now ttl : ℕ) (key : Bytes) (s : Store)
        → Held now (clock + revocation_ttl max_ttl) key (recorded clock now key ttl s)
    unfolding Held record_revocation
    record_revocation-Held clock now ttl key s =
        let (at, p, l) = stamp_now now (get clock key s) in
        (_, lookup-insert_self key _ s, ground arith, (at, p, l))

    get_held :
        (clock : ℕ) (key : Bytes) (s : Store) (e : Entry)
        → lookup key s ≡ some e
        → clock ≤ e.expires_at
        → get clock key s ≡ some e.value
    unfolding get
    get_held clock key s e h l =
        let live : ltb e.expires_at clock ≡ false = ground arith in rw (get, h, live) refl

    record_revocation-keeps :
        (t limit clock now ttl : ℕ) (key k : Bytes) (s : Store)
        → clock ≤ limit
        → limit ≤ clock + revocation_ttl max_ttl
        → Held t limit key s
        → Held t limit key (recorded clock now k ttl s)
    unfolding Held record_revocation
    record_revocation-keeps t limit clock now ttl key k s c l (e, h, x, (at, p, y)) =
        elim (Bool-cases (beq k key)) [
          | inl b ↦
              let same : k ≡ key = (beq_iff k key).0 b in
              let (at', q, z, _) = stamp_keeps now at e.value p in
              let found = get_held clock key s e h (omega (arith, c, x)) in
              (
                record {
                  value = written now (get clock k s);
                  expires_at = clock + max ttl (revocation_ttl max_ttl);
                },
                rw (same) (lookup-insert_self key _ s),
                ground (arith, l),
                (at', rw (same, found) q, omega (arith, y, z)),
              )
          | inr b ↦ (e, rw (lookup-insert k key _ s, b) h, x, (at, p, y))
        ]

    revoke_stores :
        (clock now ttl : ℕ) (g : Bool) (jti : Bytes) (s : Stores) (o : Option Store)
        → s.legacy ≡ o
        → (revoke parse format digest max_ttl clock now false g jti ttl s).0.revocations
          ≡ recorded clock now jti ttl s.revocations
    unfolding revoke
    revoke_stores clock now ttl g jti s none e = rw (e) refl
    revoke_stores clock now ttl true jti s (some l) e = rw (e) refl
    revoke_stores clock now ttl false jti s (some l) e = rw (e) refl

    -- A revocation leaves the store as it is, or records a key in it.
    revoke-keeps :
        (t limit clock now ttl : ℕ) (f g : Bool) (key jti : Bytes) (s : Stores)
        → clock ≤ limit
        → limit ≤ clock + revocation_ttl max_ttl
        → Held t limit key s.revocations
        → Held t limit key
            (revoke parse format digest max_ttl clock now f g jti ttl s).0.revocations
    unfolding revoke
    revoke-keeps t limit clock now ttl true g key jti s c l h = h
    revoke-keeps t limit clock now ttl false g key jti s c l h =
        rw (revoke_stores clock now ttl g jti s s.legacy refl)
          (record_revocation-keeps t limit clock now ttl key jti s.revocations c l h)

    revoke_subject-keeps :
        (t limit clock now ttl : ℕ) (f : Bool) (key sub : Bytes) (s : Stores)
        → clock ≤ limit
        → limit ≤ clock + revocation_ttl max_ttl
        → Held t limit key s.revocations
        → Held t limit key
            (revoke_subject parse format digest max_ttl clock now f sub ttl s).0.revocations
    unfolding revoke_subject
    revoke_subject-keeps t limit clock now ttl true key sub s c l h = h
    revoke_subject-keeps t limit clock now ttl false key sub s c l h =
        record_revocation-keeps t limit clock now ttl key
          (subject_revocation_key parse format digest sub) s.revocations c l h

    After-le : {c : ℕ} {s : Stores} {d : ℕ} {t : Stores} → After c s d t → c ≤ d
    After-le here = omega arith
    After-le (later a e l) = omega (arith, After-le a, l)
    After-le (token a _ _ _ _ _ _ _) = After-le a
    After-le (subject a _ _ _ _ _ _) = After-le a

    After-Held :
        (t c : ℕ) (key : Bytes) {s : Stores} {d : ℕ} {u : Stores}
        → Held t (c + revocation_ttl max_ttl) key s.revocations
        → After c s d u
        → d ≤ c + revocation_ttl max_ttl
        → Held t (c + revocation_ttl max_ttl) key u.revocations
    After-Held t c key h here l = h
    After-Held t c key h (later a e le) l = After-Held t c key h a (omega (arith, le, l))
    After-Held t c key h (token {d = d} {t = r} a now f g jti ttl u e) l = rw (e) (
        revoke-keeps t (c + revocation_ttl max_ttl) d now ttl f g key jti r l
          (omega (arith, After-le a)) (After-Held t c key h a l))
    After-Held t c key h (subject {d = d} {t = r} a now f sub ttl u e) l = rw (e) (
        revoke_subject-keeps t (c + revocation_ttl max_ttl) d now ttl f key sub r l
          (omega (arith, After-le a)) (After-Held t c key h a l))

    -- A lookup of a held key covers what was issued by then, or cannot be read.
    Held-covers :
        (t limit clock iat : ℕ) (f : Bool) (key : Bytes) (s : Store)
        → Held t limit key s
        → clock ≤ limit
        → iat ≤ t
        → covers parse format digest clock (some iat) f key s ≢ some false
    unfolding Held issued_no_later_than revoked_no_earlier_than
    Held-covers t limit clock iat true key s h l i e = no_answer e
    Held-covers t limit clock iat false key s (r, h, x, (at, p, y)) l i e =
        let found = get_held clock key s r h (omega (arith, l, x)) in
        let covered : leb iat at ≡ true = ground (arith, y, i) in
        not_false (rw (found, revoked_no_earlier_than, p, covered) at e)

    revoked-false :
        (clock : ℕ) (f g h : Bool) (iat : Option ℕ) (jti sub : Bytes) (s : Stores)
        (o : Option Store)
        → s.legacy ≡ o
        → revoked parse format digest clock f g h iat jti sub s ≡ some false
        → (covers parse format digest clock iat f jti s.revocations ≡ some false)
          × (covers parse format digest clock iat g
                (subject_revocation_key parse format digest sub)
                s.revocations
              ≡ some false)
    unfolding revoked
    revoked-false clock f g h iat jti sub s none e r = either-false _ _ (rw (revoked, e) at r)
    revoked-false clock f g h iat jti sub s (some l) e r =
        either-false _ _ ((either-false _ _ (rw (revoked, e) at r)).0)

    -- A token that a replica revokes by its jti or by its subject, issued by the replica's time `t` of the revocation, is
    -- never found unrevoked: whatever revocations follow, by replicas with any clocks and with failures, each lookup until
    -- the revocation's lifetime ends on the cache's clock finds it revoked, or fails. The assumption is that a written time
    -- reads back.
    pub revoked-After :
        (c t iat ttl d : ℕ) (f g h g' by_jti : Bool) (jti sub : Bytes) (s u : Stores)
        → iat ≤ t
        → After c
            (if by_jti
              then (revoke parse format digest max_ttl c t false g' jti ttl s).0
              else (revoke_subject parse format digest max_ttl c t false sub ttl s).0)
            d
            u
        → d ≤ c + revocation_ttl max_ttl
        → revoked parse format digest d f g h (some iat) jti sub u ≢ some false
    unfolding revoke_subject
    revoked-After c t iat ttl d f g h g' true jti sub s u i a l r =
        let first : Held t (c + revocation_ttl max_ttl) jti
            (revoke parse format digest max_ttl c t false g' jti ttl s).0.revocations =
          rw (revoke_stores c t ttl g' jti s s.legacy refl)
            (record_revocation-Held c t ttl jti s.revocations) in
        Held-covers t (c + revocation_ttl max_ttl) d iat f jti u.revocations
          (After-Held t c jti first a l) l i
          ((revoked-false d f g h (some iat) jti sub u u.legacy refl r).0)
    revoked-After c t iat ttl d f g h g' false jti sub s u i a l r =
        let key = subject_revocation_key parse format digest sub in
        Held-covers t (c + revocation_ttl max_ttl) d iat g key u.revocations
          (After-Held t c key (record_revocation-Held c t ttl key s.revocations) a l) l i
          ((revoked-false d f g h (some iat) jti sub u u.legacy refl r).1)
