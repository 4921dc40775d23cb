-- ===== src/Scripts/AdminDelete/Audit/Scans.antt =====
-- On the scan of a child bucket in scripts/admin-delete-project/main.go.
use lfx_v2_project_service.Prelude.{
  ℕ, String, ◌≡◌, ◌⊎◌, ◌∙◌, ap, sym, inl, inr, true, false, Option, none, some, List, [], ◌∷◌,
  arith, eq_iff, ◌==◌, Bool-cases, Member, Member-along,
}
use lfx_v2_project_service.Prelude.Text.{has_prefix}
use lfx_v2_project_service.Exec.{Result, ok, bind, bind-eq-ok}
use lfx_v2_project_service.Nats.Kv.{Value, json, plain, Entry, KeyValue}
use lfx_v2_project_service.Nats.Laws.{entry, KeyValueLaws, is_listed, Reply-cases}
use lfx_v2_project_service.Scripts.AdminDelete.Audit.{own_record, scanned, scan_keys, scan_bucket}

ok-injective : {A : Type 0} {a b : A} → ◌≡◌ {A = Result A} (ok a) (ok b) → a ≡ b
ok-injective h = cc

module _ {S A : Type 0} (bucket : KeyValue S A) (project_uid_of : A → String) (uid : String)
    (peek : S → String → Option (Entry A)) (laws : KeyValueLaws bucket peek) (b : S) where
  -- A record of the project that is stored.
  abbrev pub IsOwn : A → Type 0
  IsOwn a = (k : String) × (n : ℕ) × (project_uid_of a ≡ uid) × (peek b k ≡ some (entry (json a) n))

  own_record-Member :
      (v : Value A) (rest : List A) (a : A)
      → Member a (own_record bucket project_uid_of uid v rest)
      → ((v ≡ json a) × (project_uid_of a ≡ uid)) ⊎ Member a rest
  unfolding own_record
  own_record-Member (plain s) rest a m = inr m
  own_record-Member (json x) rest a m = elim (Bool-cases (project_uid_of x == uid)) [
    | inr other ↦ inr (let m' = rw other at m in m')
    | inl mine ↦
        let parts : (a ≡ x) ⊎ Member a rest = rw mine at m in
        elim parts [
          | inl same ↦
              inl (
                ap json (sym same),
                ap project_uid_of same ∙ (eq_iff (project_uid_of x) uid).0 mine,
              )
          | inr later ↦ inr later
        ]
  ]

  own_record-keeps :
      (v : Value A) (rest : List A) (a : A)
      → (v ≡ json a) ⊎ Member a rest
      → project_uid_of a ≡ uid
      → Member a (own_record bucket project_uid_of uid v rest)
  unfolding own_record
  own_record-keeps (plain s) rest a (inl same) own = absurd (cc same)
  own_record-keeps (plain s) rest a (inr m) own = m
  own_record-keeps (json x) rest a why own = elim (Bool-cases (project_uid_of x == uid)) [
    | inl mine ↦ rw mine (elim why [ inl same ↦ inl (let e : a ≡ x = cc in e) | inr m ↦ inr m ])
    | inr other ↦ rw other (elim why [
      | inl same ↦
          absurd
            (let e : project_uid_of x ≡ uid = cc in cc ((eq_iff (project_uid_of x) uid).1 e, other))
      | inr m ↦ m
    ])
  ]

  -- A successful round over a key that is no lookup key: the key is gone, or its record is looked at.
  scanned-ok :
      (key : String) (rest : Result (List A)) (found : List A)
      → scanned bucket project_uid_of uid (bucket.get b key) rest ≡ ok found
      → ((rest ≡ ok found) × (peek b key ≡ none))
        ⊎ ((e : Entry A) × (later : List A) × (peek b key ≡ some e)
            × (rest ≡ ok later)
            × (found ≡ own_record bucket project_uid_of uid e.value later))
  scanned-ok key rest found h = elim (Reply-cases (bucket.get b key)) [
    | inl (e, got) ↦
        let h' : bind rest (λ r. ok (own_record bucket project_uid_of uid e.value r)) ≡ ok found =
          unfold scanned in (rw got at h) in
        let (later, r, same) =
          bind-eq-ok rest (λ r. ok (own_record bucket project_uid_of uid e.value r)) h' in
        inr (e, later, laws.get_done b key e got, r, ok-injective (sym same))
    | inr (c, lost) ↦ elim (Bool-cases c.key_not_found) [
      | inl missing ↦ inl (unfold scanned in ground arith, laws.get_missing b key c lost missing)
      | inr broken ↦ absurd (unfold scanned in ground arith)
    ]
  ]

  scan_keys-IsOwn :
      (keys : List String) (found : List A) (a : A)
      → scan_keys bucket project_uid_of uid keys b ≡ ok found
      → Member a found
      → IsOwn a
  unfolding scan_keys
  scan_keys-IsOwn [] found a h m = absurd (Member-along a found [] (ok-injective (sym h)) m)
  scan_keys-IsOwn (key ∷ keys) found a h m = elim (Bool-cases (has_prefix key "lookup/")) [
    | inl lookup_key ↦ scan_keys-IsOwn keys found a (rw lookup_key at h) m
    | inr record_key ↦
        elim (scanned-ok key (scan_keys bucket project_uid_of uid keys b) found
          (rw record_key at h)) [
            | inl (same, gone) ↦ scan_keys-IsOwn keys found a same m
            | inr (e, later, stored, r, same) ↦
                elim (own_record-Member e.value later a (
                  Member-along a found (own_record bucket project_uid_of uid e.value later) same
                    m)) [
                      | inl (value, own) ↦ (key, e.revision, own, stored ∙ ap some (cc))
                      | inr there ↦ scan_keys-IsOwn keys later a r there
                    ]
          ]
  ]

  scan_keys-Member :
      (keys : List String) (found : List A) (key : String) (a : A) (n : ℕ)
      → peek b key ≡ some (entry (json a) n)
      → has_prefix key "lookup/" ≡ false
      → project_uid_of a ≡ uid
      → is_listed key keys ≡ true
      → scan_keys bucket project_uid_of uid keys b ≡ ok found
      → Member a found
  unfolding scan_keys is_listed
  scan_keys-Member [] found key a n stored p own l h = absurd (cc l)
  scan_keys-Member (k ∷ keys) found key a n stored p own l h =
      elim (Bool-cases (has_prefix k "lookup/")) [
        | inl lookup_key ↦
            scan_keys-Member keys found key a n stored p own (ground (arith, eq_iff k key))
              (rw lookup_key at h)
        | inr record_key ↦
            elim (scanned-ok k (scan_keys bucket project_uid_of uid keys b) found
              (rw record_key at h)) [
                | inl (same, gone) ↦
                    scan_keys-Member keys found key a n stored p own (ground (arith, eq_iff k key))
                      same
                | inr (e, later, there, r, same) ↦
                    Member-along a (own_record bucket project_uid_of uid e.value later) found
                      (sym same)
                      (own_record-keeps e.value later a
                        (elim (Bool-cases (k == key)) [
                          | inl here ↦ inl (ground (arith, eq_iff k key))
                          | inr other ↦
                              inr
                                (scan_keys-Member keys later key a n stored p own (ground arith) r)
                        ])
                        own)
              ]
      ]

  -- A successful scan of a child bucket finds stored records of the project only, and every record of
  -- the project that is stored under a key that does not begin with "lookup/".
  pub scan_bucket_exact :
      (found : List A)
      → scan_bucket bucket project_uid_of uid b ≡ ok found
      → ((a : A) → Member a found → IsOwn a)
        × ((key : String) (a : A) (n : ℕ)
            → peek b key ≡ some (entry (json a) n)
            → has_prefix key "lookup/" ≡ false
            → project_uid_of a ≡ uid
            → Member a found)
  unfolding scan_bucket
  scan_bucket_exact found h = elim (Reply-cases (bucket.list_keys b)) [
    | inr (c, failure) ↦ absurd (ground arith)
    | inl (keys, listed) ↦
        let loop : scan_keys bucket project_uid_of uid keys b ≡ ok found = rw listed at h in
        (
          λ a m. scan_keys-IsOwn keys found a loop m,
          λ key a n stored p own.
              scan_keys-Member keys found key a n stored p own
                (laws.list_complete b keys key (entry (json a) n) listed stored) loop,
        )
  ]
