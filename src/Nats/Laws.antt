-- ===== src/Nats/Laws.antt =====
-- What the repository relies on of a JetStream key-value bucket. `peek` is the entry that is stored
-- under a key. Nothing is said of a call that fails for another reason than a stale revision: its
-- write may or may not have happened, but no other key has changed.
use lfx_v2_project_service.Prelude.{
  ℕ, String, ◌≡◌, refl, ◌⊎◌, inl, inr, ◌≢◌, Bool, true, false, Option, none, some, List, [], ◌∷◌,
  ◌==◌, ◌||◌,
}
use lfx_v2_project_service.Domain.Error.{KvError}
use lfx_v2_project_service.Nats.Kv.{Value, Entry, Reply, done, failed, KeyValue}

abbrev pub entry : {A : Type 0} → Value A → ℕ → Entry A
entry v r = record { value = v; revision = r }

unfoldable pub is_listed : String → List String → Bool
is_listed k [] = false
is_listed k (j ∷ js) = j == k || is_listed k js

abbrev pub is_done : {A : Type 0} → Reply A → Bool
is_done (done a) = true
is_done (failed c) = false

pub Reply-done : {A : Type 0} (r : Reply A) → is_done r ≡ true → (a : A) × (r ≡ done a)
Reply-done (done a) h = (a, refl)
Reply-done (failed c) h = cc

pub Reply-cases :
    {A : Type 0} (r : Reply A) → ((a : A) × (r ≡ done a)) ⊎ ((c : KvError) × (r ≡ failed c))
Reply-cases (done a) = inl (a, refl)
Reply-cases (failed c) = inr (c, refl)

pub record KeyValueLaws {S A : Type 0} (kv : KeyValue S A) (peek : S → String → Option (Entry A))
    : Type 0 where
  pub get_done : (b : S) (k : String) (e : Entry A) → kv.get b k ≡ done e → peek b k ≡ some e
  pub get_missing :
      (b : S) (k : String) (c : KvError)
      → kv.get b k ≡ failed c
      → c.key_not_found ≡ true
      → peek b k ≡ none
  pub list_complete :
      (b : S) (ks : List String) (k : String) (e : Entry A)
      → kv.list_keys b ≡ done ks
      → peek b k ≡ some e
      → is_listed k ks ≡ true
  -- A put is not conditional on the key's being new.
  pub put_done :
      (k : String) (v : Value A) (b : S) (r : ℕ)
      → (kv.put k v b).0 ≡ done r
      → peek (kv.put k v b).1 k ≡ some (entry v r)
  pub put_unconditional :
      (k : String) (v : Value A) (b : S) (c : KvError)
      → (kv.put k v b).0 ≡ failed c
      → c.key_exists ≡ false
  pub put_other :
      (k : String) (v : Value A) (b : S) (j : String) → k ≢ j → peek (kv.put k v b).1 j ≡ peek b j
  -- A create succeeds only on a key that holds nothing.
  pub create_done :
      (k : String) (v : Value A) (b : S) (r : ℕ)
      → (kv.create k v b).0 ≡ done r
      → (peek b k ≡ none) × (peek (kv.create k v b).1 k ≡ some (entry v r))
  pub create_taken :
      (k : String) (v : Value A) (b : S) (e : Entry A)
      → peek b k ≡ some e
      → (c : KvError) × ((kv.create k v b).0 ≡ failed c) × (peek (kv.create k v b).1 k ≡ some e)
  pub create_other :
      (k : String) (v : Value A) (b : S) (j : String)
      → k ≢ j
      → peek (kv.create k v b).1 j ≡ peek b j
  -- An update against another revision than the stored one is refused.
  pub update_done :
      (k : String) (v : Value A) (rev : ℕ) (b : S) (r : ℕ)
      → (kv.update k v rev b).0 ≡ done r
      → peek (kv.update k v rev b).1 k ≡ some (entry v r)
  pub update_stale :
      (k : String) (v : Value A) (rev : ℕ) (b : S) (e : Entry A)
      → peek b k ≡ some e
      → e.revision ≢ rev
      → (c : KvError) × ((kv.update k v rev b).0 ≡ failed c)
        × (peek (kv.update k v rev b).1 k ≡ some e)
  pub update_other :
      (k : String) (v : Value A) (rev : ℕ) (b : S) (j : String)
      → k ≢ j
      → peek (kv.update k v rev b).1 j ≡ peek b j
  pub delete_done :
      (k : String) (rev : Option ℕ) (b : S)
      → (kv.delete k rev b).0 ≡ done tt
      → peek (kv.delete k rev b).1 k ≡ none
  -- A delete against another revision than the stored one is refused. The option LastRevision(0)
  -- sets no condition, so nothing is said of revision 0.
  pub delete_stale :
      (k : String) (rev : ℕ) (b : S) (e : Entry A)
      → rev ≢ 0
      → peek b k ≡ some e
      → e.revision ≢ rev
      → (c : KvError) × ((kv.delete k (some rev) b).0 ≡ failed c)
        × (peek (kv.delete k (some rev) b).1 k ≡ some e)
  pub delete_other :
      (k : String) (rev : Option ℕ) (b : S) (j : String)
      → k ≢ j
      → peek (kv.delete k rev b).1 j ≡ peek b j
  pub purge_done :
      (k : String) (b : S) → (kv.purge k b).0 ≡ done tt → peek (kv.purge k b).1 k ≡ none
  pub purge_other : (k : String) (b : S) (j : String) → k ≢ j → peek (kv.purge k b).1 j ≡ peek b j
