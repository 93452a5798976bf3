-- ===== src/Access/Revoked.antt =====
-- A revoked API token stays revoked.
use smart_deploy_linux.Prelude.Table.{find, update, any, All-find}
use smart_deploy_linux.Prelude.Keys.{HasKeys}
use smart_deploy_linux.Prelude.{
  ℕ, ◌≡◌, ◌≢◌, inl, inr, refl, sym, subst, ◌∙◌, Bool, true, false, ◌&&◌, Option, none, some, List,
  [], ◌∷◌, ◌++◌, Bytes, bytes_eq, bytes_eq_iff, bytes_eq_refl, ◌==◌, is_none, arith, Bool-cases,
  Option-cases, All,
}
use smart_deploy_linux.Schema.{ok}
use smart_deploy_linux.Access.Handlers
use smart_deploy_linux.Access.Handlers.{may}
use smart_deploy_linux.Access.{
  Principal, user_id, ApiToken, Accounts, Faults, CreateApiTokenInput, create_api_token,
  is_revocable, revoke, revoke_api_token, is_live, authenticate_api_token, insert_token,
  revoke_token, authenticate,
}

-- The calls of the store that change the tokens.
pub data Call : Type 0 where
  creates : Faults → ℕ → ℕ → CreateApiTokenInput → Call
  revokes : Faults → ℕ → ℕ → ℕ → Call
  authenticates : Faults → ℕ → Bytes → Call

unfoldable pub call : Call → Accounts → Accounts
unfolding create_api_token revoke_api_token authenticate_api_token
call (creates fails now id input) db = (create_api_token fails now id db input).0
call (revokes fails now id user) db = (revoke_api_token fails now db id user).0
call (authenticates fails now hash) db = (authenticate_api_token fails now db hash).0

unfoldable pub calls : List Call → Accounts → Accounts
unfolding call
calls [] db = db
calls (c ∷ cs) db = calls cs (call c db)

-- Tokens with this hash exist, and all of them are revoked.
abbrev pub IsClosed : Bytes → List ApiToken → Type 0
IsClosed hash ts =
    (any (λ t. bytes_eq t.token_hash hash) ts ≡ true)
    × (any (λ t. bytes_eq t.token_hash hash && is_none t.revoked_at) ts ≡ false)

module _ (hash : Bytes) where
  any-update :
      (p q : ApiToken → Bool) (f : ApiToken → ApiToken) (ts : List ApiToken)
      → ((t : ApiToken) → p (f t) ≡ p t)
      → any p (update q f ts) ≡ any p ts
  unfolding any update
  any-update p q f [] same = refl
  any-update p q f (t ∷ ts) same = ground (arith, same t, any-update p q f ts same)

  any-revoke :
      (id user now : ℕ) (ts : List ApiToken)
      → any (λ t. bytes_eq t.token_hash hash && is_none t.revoked_at) ts ≡ false
      → any
          (λ t. bytes_eq t.token_hash hash && is_none t.revoked_at)
          (update (is_revocable id user) (revoke now) ts)
        ≡ false
  unfolding any update
  any-revoke id user now [] h = refl
  any-revoke id user now (t ∷ ts) h = ground (arith, any-revoke id user now ts)

  any-append_false :
      (p : ApiToken → Bool) (ts : List ApiToken) (t : ApiToken)
      → any p ts ≡ false
      → p t ≡ false
      → any p (ts ++ t ∷ []) ≡ false
  unfolding any
  any-append_false p [] t h k = ground arith
  any-append_false p (u ∷ ts) t h k = ground (arith, any-append_false p ts t)

  any-append_true :
      (p : ApiToken → Bool) (ts us : List ApiToken) → any p ts ≡ true → any p (ts ++ us) ≡ true
  unfolding any
  any-append_true p [] us h = cc
  any-append_true p (t ∷ ts) us h = ground (arith, any-append_true p ts us)

  find-any :
      (p : ApiToken → Bool) (ts : List ApiToken) → any p ts ≡ true → is_none (find p ts) ≡ false
  unfolding any find
  find-any p [] h = cc
  find-any p (t ∷ ts) h = ground (arith, find-any p ts)

  closed-not_live :
      (now : ℕ) (ts : List ApiToken)
      → any (λ t. bytes_eq t.token_hash hash && is_none t.revoked_at) ts ≡ false
      → find (is_live now hash) ts ≡ none
  unfolding any find
  closed-not_live now [] h = refl
  closed-not_live now (t ∷ ts) h = ground (arith, closed-not_live now ts)

  still_any :
      (ts : List ApiToken) (t : ApiToken)
      → IsClosed hash ts
      → bytes_eq t.token_hash hash ≡ false
      → IsClosed hash (ts ++ t ∷ [])
  still_any ts t (known, shut) other =
      (any-append_true _ ts (t ∷ []) known, any-append_false _ ts t shut (ground arith))

  same_hash :
      (input_hash : Bytes) (ts : List ApiToken)
      → any (λ t. bytes_eq t.token_hash hash) ts ≡ true
      → find (λ t. bytes_eq t.token_hash input_hash) ts ≡ none
      → bytes_eq input_hash hash ≡ false
  same_hash input_hash ts known free = elim (Bool-cases (bytes_eq input_hash hash)) [
    | inr apart ↦ apart
    | inl same ↦
        let e = (bytes_eq_iff input_hash hash).0 same in
        let missing = find-any (λ t. bytes_eq t.token_hash hash) ts known in
        absurd (cc (rw e at free, missing))
  ]

  call-IsClosed :
      (c : Call) (db : Accounts) → IsClosed hash db.tokens → IsClosed hash (call c db).tokens
  unfolding call
  call-IsClosed (creates fails now id input) db h = elim (Bool-cases (fails insert_token)) [
    | inl broke ↦ rw (call, broke) h
    | inr works ↦
        elim (Option-cases (find (λ t. bytes_eq t.token_hash input.token_hash) db.tokens)) [
          | inr (t, taken) ↦ rw (call, works, taken) h
          | inl free ↦
              rw (call, works, free)
                (still_any db.tokens _ h (same_hash input.token_hash db.tokens h.0 free))
        ]
  ]
  call-IsClosed (revokes fails now id user) db h = elim (Bool-cases (fails revoke_token)) [
    | inl broke ↦ rw (call, broke) h
    | inr works ↦
        rw (call, works)
          (any-update _ _ _ db.tokens (λ t. refl) ∙ h.0, any-revoke id user now db.tokens h.1)
  ]
  call-IsClosed (authenticates fails now presented) db h = elim (Bool-cases (fails authenticate)) [
    | inl broke ↦ rw (call, broke) h
    | inr works ↦
        rw (call, works)
          (
            any-update _ _ _ db.tokens (λ t. refl) ∙ h.0,
            any-update _ _ _ db.tokens (λ t. refl) ∙ h.1,
          )
  ]

  calls-IsClosed :
      (cs : List Call) (db : Accounts)
      → IsClosed hash db.tokens
      → IsClosed hash (calls cs db).tokens
  unfolding calls
  calls-IsClosed [] db h = h
  calls-IsClosed (c ∷ cs) db h = calls-IsClosed cs (call c db) (call-IsClosed c db h)

  -- With no live token of this hash the store knows no owner for it.
  closed_refused :
      (fails : Faults) (now : ℕ) (db : Accounts)
      → IsClosed hash db.tokens
      → fails authenticate ≡ false
      → (authenticate_api_token fails now db hash).1 ≡ ok none
  unfolding authenticate_api_token
  closed_refused fails now db h works = rw (works, closed-not_live now db.tokens h.1) refl

apart-revoked :
    (id user now : ℕ) (hash : Bytes) (ts : List ApiToken)
    → All (λ u. u.token_hash ≢ hash) ts
    → any
        (λ t. bytes_eq t.token_hash hash && is_none t.revoked_at)
        (update (is_revocable id user) (revoke now) ts)
      ≡ false
unfolding any update
apart-revoked id user now hash [] h = refl
apart-revoked id user now hash (u ∷ ts) h = elim (Bool-cases (bytes_eq u.token_hash hash)) [
  | inl same ↦ absurd (h.0 ((bytes_eq_iff u.token_hash hash).0 same))
  | inr other ↦ ground (arith, apart-revoked id user now hash ts h.1)
]

revoked-IsClosed :
    (id user now : ℕ) (ts : List ApiToken) (t : ApiToken)
    → HasKeys (λ u. u.token_hash) ts
    → find (is_revocable id user) ts ≡ some t
    → IsClosed t.token_hash (update (is_revocable id user) (revoke now) ts)
unfolding any update find
revoked-IsClosed id user now [] t keys found = absurd (cc found)
revoked-IsClosed id user now (u ∷ ts) t keys found = elim (Bool-cases (is_revocable id user u)) [
  | inl here ↦
      let u-t : u ≡ t = let e = rw here at found in cc e in
      let rest = apart-revoked id user now u.token_hash ts keys.0 in
      subst (λ v. IsClosed v.token_hash (update (is_revocable id user) (revoke now) (u ∷ ts))) u-t
        (rw (here, bytes_eq_refl u.token_hash) (refl, rest))
  | inr there ↦
      let later = rw there at found in
      let apart =
        All-find (λ v. v.token_hash ≢ u.token_hash) (is_revocable id user) ts keys.0 later in
      let (known, shut) = revoked-IsClosed id user now ts t keys.1 later in
      elim (Bool-cases (bytes_eq u.token_hash t.token_hash)) [
        | inl same ↦ absurd (apart (sym ((bytes_eq_iff u.token_hash t.token_hash).0 same)))
        | inr other ↦ rw (there, other) (known, shut)
      ]
]

found-any :
    (p : ApiToken → Bool) (ts : List ApiToken) {t : ApiToken} → find p ts ≡ some t → any p ts ≡ true
unfolding find any
found-any p [] found = cc
found-any p (u ∷ ts) {t} found = ground (arith, found-any p ts {t = t})

revoke-ok :
    (fails : Faults) (now id user : ℕ) (db : Accounts)
    → fails revoke_token ≡ false
    → any (is_revocable id user) db.tokens ≡ true
    → revoke_api_token fails now db id user
      ≡ (record db { tokens = update (is_revocable id user) (revoke now) db.tokens }, ok true)
unfolding revoke_api_token
revoke-ok fails now id user db works hit = rw (works, hit) refl

-- Where token hashes are distinct and the UPDATE does not fail, a caller who may write tokens and
-- revokes a live one of its own succeeds, and after it no calls of the store, by anyone and at any
-- times, make the token known again.
pub revoked_forever :
    (fails : Faults) (now : ℕ) (p : Option Principal) (id : ℕ) (db : Accounts) (t : ApiToken)
    (cs : List Call) (fails' : Faults) (later : ℕ)
    → may p "apitoken.write" ≡ true
    → (user_id p == 0) ≡ false
    → fails revoke_token ≡ false
    → HasKeys (λ u. u.token_hash) db.tokens
    → find (is_revocable id (user_id p)) db.tokens ≡ some t
    → fails' authenticate ≡ false
    → ((Handlers.revoke_token fails now p (some id) db).1 ≡ Handlers.no_content)
      × ((authenticate_api_token fails' later
            (calls cs (Handlers.revoke_token fails now p (some id) db).0)
            t.token_hash).1
          ≡ ok none)
unfolding Handlers.revoke_token
revoked_forever fails now p id db t cs fails' later allowed known works keys found works' =
    let user = user_id p in
    let done =
      revoke-ok fails now id user db works (found-any (is_revocable id user) db.tokens found) in
    let closed = revoked-IsClosed id user now db.tokens t keys found in
    rw (allowed, known, done)
      (
        refl,
        closed_refused t.token_hash fails' later _ (calls-IsClosed t.token_hash cs _ closed) works',
      )
