-- ===== src/KeyValue/Host/Atomics/Laws.antt =====
-- What `increment` and the handles of compare-and-swap do over a lawful backend
-- (crates/wasi-keyvalue/src/host/atomics_impl.rs), alone and interleaved.
use yetti.Base.{ℕ, ◌+◌, ◌%◌, ◌^◌, ◌<◌, ◌≡◌, refl, ap, none, some, Text, Bytes, text_eq, arith, ◌++◌}
use yetti.Base.Lists.{bytes}
use yetti.Base.Bits.{to_be_bytes, from_be_bytes-to_be_bytes}
use yetti.Base.Exec.{ok, err, pure, map_err-eq-ok, ◌>>=◌}
use yetti.Foreign.Anyhow.{Anyhow}
use yetti.Foreign.ResourceTable.{ResourceTable}
use yetti.KeyValue.Backend.{Backend, IsLawful}
use yetti.KeyValue.Host.{
  other, cas, Entry, View, Handler, as_bucket, get_bucket, call, attempt, push, set,
}
use yetti.KeyValue.Host.Laws.{Names}
use yetti.KeyValue.Host.Atomics.{
  buffer, i64_of, or_no_value, increment_read, increment_write, as_cas, increment, new_cas, get_cas,
  current,
}

buffer-to_be_bytes : (n : ℕ) → buffer (to_be_bytes 8 n) ≡ to_be_bytes 8 n
unfolding buffer to_be_bytes
buffer-to_be_bytes n = refl

i64_of-to_be_bytes : (n : ℕ) → n < 2 ^ 64 → i64_of (to_be_bytes 8 n) ≡ n
unfolding i64_of
i64_of-to_be_bytes n h = rw buffer-to_be_bytes (from_be_bytes-to_be_bytes 8 n h)

module _ (ah : Anyhow) (B : Backend ah.Error) (T : ResourceTable (Entry B.Bucket))
    (L : IsLawful B) where
  abbrev stored : B.Bucket → Text → ℕ → View ah B T → View ah B T
  stored b k n v = record v { ctx = (B.set b k (to_be_bytes 8 n) v.ctx).1 }

  increment_read_lem :
      (v : View ah B T) (b : B.Bucket) (k : Text) (x : Bytes)
      → L.view v.ctx b k ≡ some x
      → increment_read ah B T b k v ≡ (ok (i64_of x), v)
  unfolding increment_read attempt
  increment_read_lem v b k x e = rw L.get_lem (rw e)

  counter_read :
      (v : View ah B T) (b : B.Bucket) (k : Text) (n : ℕ)
      → n < 2 ^ 64
      → L.view v.ctx b k ≡ some (to_be_bytes 8 n)
      → increment_read ah B T b k v ≡ (ok n, v)
  counter_read v b k n fits e =
      rw (increment_read_lem v b k (to_be_bytes 8 n) e) (rw (i64_of-to_be_bytes n fits))

  increment_write_lem :
      (v : View ah B T) (b : B.Bucket) (k : Text) (n delta : ℕ)
      → increment_write ah B T b k n delta v
        ≡ (ok ((n + delta) % 2 ^ 64), stored b k ((n + delta) % 2 ^ 64) v)
  unfolding increment_write call
  increment_write_lem v b k n delta = rw L.set_ok

  view-stored :
      (v : View ah B T) (b : B.Bucket) (k : Text) (n : ℕ)
      → L.view (stored b k n v).ctx b k ≡ some (to_be_bytes 8 n)
  view-stored v b k n = rw (L.view-set, L.alias_refl) (ground arith)

  module _ (v : View ah B T) (self : ℕ) (b : B.Bucket) (h : Names ah B T v self b) where
    increment_lem :
        (k : Text) (x : Bytes) (delta : ℕ)
        → L.view v.ctx b k ≡ some x
        → increment ah B T self k delta v
          ≡ (ok ((i64_of x + delta) % 2 ^ 64), stored b k ((i64_of x + delta) % 2 ^ 64) v)
    unfolding increment get_bucket
    increment_lem k x delta e =
        rw h (rw (increment_read_lem v b k x e) (increment_write_lem v b k (i64_of x) delta))

    increment_counter :
        (k : Text) (n delta : ℕ)
        → n < 2 ^ 64
        → L.view v.ctx b k ≡ some (to_be_bytes 8 n)
        → increment ah B T self k delta v
          ≡ (ok ((n + delta) % 2 ^ 64), stored b k ((n + delta) % 2 ^ 64) v)
    increment_counter k n delta fits e =
        rw (increment_lem k (to_be_bytes 8 n) delta e) (rw (i64_of-to_be_bytes n fits))

    -- A key with no value is refused by `increment`, with an error that names the key, and no value
    -- is created.
    increment_missing :
        (k : Text) (delta : ℕ)
        → L.view v.ctx b k ≡ none
        → increment ah B T self k delta v ≡ (err (other (bytes "no value for " ++ k)), v)
    unfolding increment get_bucket increment_read attempt or_no_value
    increment_missing k delta e = rw h (rw L.get_lem (rw e (rw ah.to_string-msg)))

  -- One increment after another: the counter ends at the sum, modulo 2 ^ 64, of the stored number
  -- and the two deltas, which is also the second result.
  pub increment-increment :
      (v : View ah B T) (self : ℕ) (b : B.Bucket) (k : Text) (n d d' : ℕ)
      → Names ah B T v self b
      → n < 2 ^ 64
      → L.view v.ctx b k ≡ some (to_be_bytes 8 n)
      → (v' : View ah B T) × ((increment ah B T self k d >>= λ _. increment ah B T self k d') v
          ≡ (ok ((n + d + d') % 2 ^ 64), v'))
        × (L.view v'.ctx b k ≡ some (to_be_bytes 8 ((n + d + d') % 2 ^ 64)))
  increment-increment v self b k n d d' h fits e =
      let m : ℕ = (n + d) % 2 ^ 64 in
      let sum : (m + d') % 2 ^ 64 ≡ (n + d + d') % 2 ^ 64 = omega arith in
      let v₁ : View ah B T = stored b k m v in
      (
        stored b k ((n + d + d') % 2 ^ 64) v₁,
        rw (increment_counter v self b h k n d fits e) (
            rw (increment_counter v₁ self b h k m d' (omega arith) (view-stored v b k m))
              (ap (λ t. (ok t, stored b k t v₁)) sum)),
        view-stored v₁ b k ((n + d + d') % 2 ^ 64),
      )

  -- The schedule in which both reads of two increments run before either write.
  abbrev pub reads_first : B.Bucket → Text → ℕ → ℕ → Handler ah B T (ℕ × ℕ)
  reads_first b k d d' = do
    a ← increment_read ah B T b k
    a' ← increment_read ah B T b k
    r ← increment_write ah B T b k a d
    r' ← increment_write ah B T b k a' d'
    pure (r, r')

  -- Two increments of one key whose reads both run before either write: each returns the sum of the
  -- stored number and its own delta, and the delta of the one that writes first is lost.
  pub increments_lose_update :
      (v : View ah B T) (b : B.Bucket) (k : Text) (n d d' : ℕ)
      → n < 2 ^ 64
      → L.view v.ctx b k ≡ some (to_be_bytes 8 n)
      → (v' : View ah B T) × (reads_first b k d d' v
          ≡ (ok ((n + d) % 2 ^ 64, (n + d') % 2 ^ 64), v'))
        × (L.view v'.ctx b k ≡ some (to_be_bytes 8 ((n + d') % 2 ^ 64)))
  increments_lose_update v b k n d d' fits e =
      let v₁ : View ah B T = stored b k ((n + d) % 2 ^ 64) v in
      (
        stored b k ((n + d') % 2 ^ 64) v₁,
        rw (counter_read v b k n fits e) (
            rw (counter_read v b k n fits e)
              (rw (increment_write_lem v b k n d) (rw (increment_write_lem v₁ b k n d')))),
        view-stored v₁ b k ((n + d') % 2 ^ 64),
      )

  table-set :
      (v : View ah B T) (self : ℕ) (k : Text) (x : Bytes)
      → (set ah B T self k x v).1.table ≡ v.table
  unfolding set get_bucket call as_bucket
  table-set v self k x = ground arith

  pushed :
      (v v' : View ah B T) (r : ℕ) (x : Entry B.Bucket)
      → push ah B T x v ≡ (ok r, v')
      → T.get v'.table r ≡ some x
  unfolding push
  pushed v v' r x e =
      let made : (T.push x v.table).0 ≡ ok r = map_err-eq-ok _ _ (ap (λ p. p.0) e) in
      T.get-push_self x v.table v'.table r (λ i. (made i, (e i).1.table))

  -- A handle for compare-and-swap keeps the value that the key had when the handle was made, also
  -- after the key was set.
  current-set-new_cas :
      (v v' : View ah B T) (self r : ℕ) (b : B.Bucket) (k : Text) (x : Bytes)
      → Names ah B T v self b
      → new_cas ah B T self k v ≡ (ok r, v')
      → (current ah B T r (set ah B T self k x v').1).0 ≡ ok (L.view v.ctx b k)
  unfolding current get_cas new_cas get_bucket call as_cas
  current-set-new_cas v v' self r b k x h e =
      let e₁ : push ah B T (cas (record { key = k; current = L.view v.ctx b k })) v ≡ (ok r, v') =
        rw (h, L.get_lem) at e in
      rw table-set (rw (pushed v v' r _ e₁))
