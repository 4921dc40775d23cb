-- ===== src/Nats/Memory.antt =====
-- A bucket in memory that meets the laws: the entries with the last revision given out. It stands
-- for JetStream in the examples.
use lfx_v2_project_service.Prelude.{
  ℕ, ◌+◌, String, ◌≡◌, Bool, true, false, Option, none, some, List, [], ◌∷◌, nat_eq, if◌then◌else◌,
  arith, eq_iff, eq_refl, ◌||◌,
}
use lfx_v2_project_service.Prelude.Assoc.{lookup, insert, remove, lookup-insert, lookup-remove}
use lfx_v2_project_service.Domain.Error.{KvError}
use lfx_v2_project_service.Nats.Kv.{
  Value, json, plain, Entry, Reply, done, failed, KeyValue, ObjectStore,
}
use lfx_v2_project_service.Nats.Laws.{entry, is_listed, KeyValueLaws}

pub record Memory (A : Type 0) : Type 0 where
  pub entries : List (String × Entry A)
  pub last : ℕ

abbrev not_found : KvError
not_found = record { key_not_found = true; key_exists = false; wrong_last_sequence = false }

abbrev exists : KvError
exists = record { key_not_found = false; key_exists = true; wrong_last_sequence = true }

abbrev wrong_sequence : KvError
wrong_sequence = record { key_not_found = false; key_exists = false; wrong_last_sequence = true }

abbrev keys : {A : Type 0} → List (String × A) → List String
keys [] = []
keys ((k, a) ∷ m) = k ∷ keys m

done-injective : {ks js : List String} → done ks ≡ done js → ks ≡ js
done-injective h = cc

module _ {A : Type 0} where
  unfoldable pub peek : Memory A → String → Option (Entry A)
  unfolding lookup
  peek b k = lookup k b.entries

  reply_of : Option (Entry A) → Reply (Entry A)
  reply_of none = failed not_found
  reply_of (some e) = done e

  write : String → Value A → Memory A → Reply ℕ × Memory A
  write k v b = (
    done (b.last + 1),
    record { entries = insert k (entry v (b.last + 1)) b.entries; last = b.last + 1 },
  )

  has_revision : ℕ → Option (Entry A) → Bool
  has_revision rev none = nat_eq rev 0
  has_revision rev (some e) = nat_eq rev e.revision

  is_absent : Option (Entry A) → Bool
  is_absent none = true
  is_absent (some e) = false

  erase : String → Memory A → Reply (Unit {0}) × Memory A
  erase k b = (done tt, record { entries = remove k b.entries; last = b.last + 1 })

  -- The option LastRevision(0) sets no condition.
  erase_at : String → Option ℕ → Memory A → Reply (Unit {0}) × Memory A
  erase_at k none b = erase k b
  erase_at k (some rev) b =
      if nat_eq rev 0 || has_revision rev (peek b k) then erase k b else (failed wrong_sequence, b)

  unfoldable pub memory : KeyValue (Memory A) A
  unfolding peek reply_of write has_revision is_absent erase erase_at insert remove
  memory = record {
    list_keys = λ b. done (keys b.entries);
    get = λ b k. reply_of (peek b k);
    create = λ k v b. if is_absent (peek b k) then write k v b else (failed exists, b);
    put = write;
    update = λ k v rev b.
        if has_revision rev (peek b k) then write k v b else (failed wrong_sequence, b);
    delete = erase_at;
    purge = erase;
  }

  is_listed-keys :
      (m : List (String × Entry A)) (k : String) (e : Entry A)
      → lookup k m ≡ some e
      → is_listed k (keys m) ≡ true
  unfolding lookup is_listed
  is_listed-keys [] k e h = ground arith
  is_listed-keys ((j, x) ∷ m) k e h = ground (arith, is_listed-keys m k e)

  pub memory-laws : KeyValueLaws memory peek
  unfolding memory
  memory-laws = record {
    get_done = λ b k e h. ground (arith);
    get_missing = λ b k c h n. ground (arith);
    list_complete = λ b ks k e h n. rw (done-injective h) at (is_listed-keys b.entries k e n);
    put_done =
        λ k v b r h. ground (arith, eq_refl k, lookup-insert b.entries (entry v (b.last + 1)) k k);
    put_unconditional = λ k v b c h. ground (arith);
    put_other =
        λ k v b j h. ground (arith, eq_iff k j, lookup-insert b.entries (entry v (b.last + 1)) k j);
    create_done = λ k v b r h. (
      ground arith,
      ground (arith, eq_refl k, lookup-insert b.entries (entry v (b.last + 1)) k k),
    );
    create_taken = λ k v b e h. (exists, ground arith, ground arith);
    create_other =
        λ k v b j h. ground (arith, eq_iff k j, lookup-insert b.entries (entry v (b.last + 1)) k j);
    update_done = λ k v rev b r h.
        ground (arith, eq_refl k, lookup-insert b.entries (entry v (b.last + 1)) k k);
    update_stale = λ k v rev b e h n. (wrong_sequence, ground arith, ground arith);
    update_other = λ k v rev b j h.
        ground (arith, eq_iff k j, lookup-insert b.entries (entry v (b.last + 1)) k j);
    delete_done = λ k rev b h. ground (arith, eq_refl k, lookup-remove b.entries k k);
    delete_stale = λ k rev b e z h n. (wrong_sequence, ground arith, ground arith);
    delete_other = λ k rev b j h. ground (arith, eq_iff k j, lookup-remove b.entries k j);
    purge_done = λ k b h. ground (arith, eq_refl k, lookup-remove b.entries k k);
    purge_other = λ k b j h. ground (arith, eq_iff k j, lookup-remove b.entries k j);
  }

-- An object store in memory, over the same state.
unfoldable pub memory_files : ObjectStore (Memory (List ℕ))
unfolding memory
memory_files = record {
  get = λ b k. elim (lookup k b.entries) [
    | none ↦ failed not_found
    | some e ↦ elim e.value [ json bytes ↦ done bytes | plain s ↦ failed not_found ]
  ];
  put = λ k bytes b. (done tt, (write k (json bytes) b).1);
  delete = erase;
}
