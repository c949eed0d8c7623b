-- ===== src/Integrations/Resolved.antt =====
-- What `resolve` of integrations.service.ts gives a connector after a rotation.
use ai_business_operating_sy.Base.{
  Bool, Bool-cases, List, Result, String, Table, [], any, ap, arith, eq_iff, eq_refl, err, false,
  find, find-create, find-remove, if◌then◌else◌, inl, inr, none, not, ok, refl, remove, some, subst,
  true, ◌&&◌, ◌++◌, ◌==◌, ◌∙◌, ◌∷◌, ◌≡◌,
}
use ai_business_operating_sy.Integrations.Service.{
  Integration, Credential, IntegrationsDb, Secrets, ConnectorContext, get_integration,
  is_credential, replace_first, rotated, rotate_credential, put_decrypted, decrypt_all,
  resolve_integration,
}

-- At most one row of the integration has the key.
unfoldable pub at_most_one : (id key : String) → List Credential → Bool
at_most_one id key [] = true
at_most_one id key (c ∷ cs) =
    let rest = at_most_one id key cs in
    if is_credential id key c then not (any (is_credential id key) cs) else rest

put_decrypted-other :
    (key k : String) (r : Result String) (t : Table String)
    → (k == key) ≡ false
    → find key (put_decrypted k r t) ≡ find key t
put_decrypted-other key k (err e) t other = refl
put_decrypted-other key k (ok v) t other =
    rw (find-create key k v (remove k t), other, find-remove key k t, other) refl

put_decrypted-own :
    (key v : String) (r : Result String) (t : Table String)
    → r ≡ ok v
    → find key (put_decrypted key r t) ≡ some v
put_decrypted-own key v (err e) t h = cc
put_decrypted-own key v (ok w) t h =
    rw (find-create key key w (remove key t), eq_refl key)
      (ap (λ r. elim r [ ok x ↦ some x | err e ↦ none ]) h)

module _ (s : Secrets) (id key : String) where
  abbrev next : Credential → Table String → Table String
  next c t =
      if c.integration_id == id
      then put_decrypted c.credential_type (s.decrypt c.encrypted_value) t
      else t

  next-other :
      (c : Credential) (t : Table String)
      → is_credential id key c ≡ false
      → find key (next c t) ≡ find key t
  next-other c t h = elim (Bool-cases (c.integration_id == id)) [
    | inr foreign ↦ rw foreign refl
    | inl own ↦
        let other : (c.credential_type == key) ≡ false =
          subst (λ b. b && (c.credential_type == key) ≡ false) own h in
        rw own (put_decrypted-other key c.credential_type (s.decrypt c.encrypted_value) t other)
  ]

  -- Without a row of the key, what is there under the key stays.
  decrypt_all-absent :
      (cs : List Credential) (t : Table String)
      → any (is_credential id key) cs ≡ false
      → find key (decrypt_all s id cs t) ≡ find key t
  unfolding decrypt_all
  decrypt_all-absent [] t h = refl
  decrypt_all-absent (c ∷ cs) t h =
      decrypt_all-absent cs (next c t) (ground arith) ∙ next-other c t (ground arith)

  decrypt_all-append :
      (xs ys : List Credential) (t : Table String)
      → decrypt_all s id (xs ++ ys) t ≡ decrypt_all s id ys (decrypt_all s id xs t)
  unfolding decrypt_all
  decrypt_all-append [] ys t = refl
  decrypt_all-append (x ∷ xs) ys t = decrypt_all-append xs ys (next x t)

  replaced :
      (payload value : String) (cs : List Credential) (t : Table String)
      → s.decrypt payload ≡ ok value
      → any (is_credential id key) cs ≡ true
      → at_most_one id key cs ≡ true
      → find key (decrypt_all s id (replace_first id key payload cs) t) ≡ some value
  unfolding decrypt_all replace_first at_most_one
  replaced payload value [] t opens there single = absurd (ground arith)
  replaced payload value (c ∷ cs) t opens there single =
      elim (Bool-cases (is_credential id key c)) [
        | inr other ↦
            rw other (replaced payload value cs (next c t) opens (ground arith) (ground arith))
        | inl own ↦
            let here : (c.integration_id == id) ≡ true = ground arith in
            let named : c.credential_type ≡ key = (eq_iff c.credential_type key).0 (ground arith) in
            rw own (
              decrypt_all-absent cs (next (record c { encrypted_value = payload }) t) (ground arith)
              ∙ rw (here, named) (put_decrypted-own key value (s.decrypt payload) t opens))
      ]

  decrypt_all-rotated :
      (payload value : String) (cs : List Credential)
      → s.decrypt payload ≡ ok value
      → at_most_one id key cs ≡ true
      → find key (decrypt_all s id (rotated id key payload cs) []) ≡ some value
  unfolding decrypt_all
  decrypt_all-rotated payload value cs opens single =
      elim (Bool-cases (any (is_credential id key) cs)) [
        | inl there ↦ rw there (replaced payload value cs [] opens there single)
        | inr absent ↦
            rw
              (
                absent,
                decrypt_all-append cs
                    (record {
                      integration_id = id;
                      credential_type = key;
                      encrypted_value = payload;
                    }
                      ∷ [])
                    [],
                eq_refl id,
              )
              (put_decrypted-own key value (s.decrypt payload) (decrypt_all s id cs []) opens)
      ]

  -- After the rotation of a credential of an integration of the organization, a connector gets the new
  -- value under its key, if its encryption can be decrypted and no two rows had the key.
  pub resolve_integration-rotate_credential :
      (org value : String) (i : Integration) (db : IntegrationsDb)
      → find id db.integrations ≡ some i
      → (i.organization_id == org) ≡ true
      → s.decrypt (s.encrypt 0 value) ≡ ok value
      → at_most_one id key db.credentials ≡ true
      → (x : ConnectorContext) × ((resolve_integration s org id
            (rotate_credential s org id key value db).1).0
          ≡ ok x)
        × (find key x.credentials ≡ some value)
  unfolding resolve_integration rotate_credential get_integration
  resolve_integration-rotate_credential org value i db found own opens single =
      rw (found, own, found, own)
        (_, refl, decrypt_all-rotated (s.encrypt 0 value) value db.credentials opens single)
