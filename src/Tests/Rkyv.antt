-- ===== src/Tests/Rkyv.antt =====
-- An encoding of responses with the property that the cache relies on: texts are shifted by one and
-- end with a zero, and the headers are counted.
use yetti.Base.{ℕ, zero, suc, ◌≡◌, refl, List, [], ◌∷◌, Text, Bytes}
use yetti.Base.Lists.{length}
use yetti.Base.Exec.{Result, ok, err, ok-injective}
use yetti.Http.Cache.{Serialized, Rkyv}

unfoldable pub write_text : Text → Bytes → Bytes
write_text [] rest = 0 ∷ rest
write_text (c ∷ t) rest = suc c ∷ write_text t rest

unfoldable pub write_headers : List (Text × Text) → Bytes → Bytes
write_headers [] rest = rest
write_headers ((k, v) ∷ headers) rest = write_text k (write_text v (write_headers headers rest))

read_text : Bytes → Text × Bytes
read_text [] = ([], [])
read_text (zero ∷ rest) = ([], rest)
read_text (suc c ∷ rest) = let (t, behind) = read_text rest in (c ∷ t, behind)

read_headers : ℕ → Bytes → List (Text × Text) × Bytes
read_headers zero rest = ([], rest)
read_headers (suc n) rest =
    let (k, rest1) = read_text rest in
    let (v, rest2) = read_text rest1 in
    let (headers, behind) = read_headers n rest2 in ((k, v) ∷ headers, behind)

abbrev pub write : Serialized → Bytes
write s = s.status ∷ length s.headers ∷ write_headers s.headers s.body

read : Bytes → Result (List Text) Serialized
read (status ∷ count ∷ rest) =
    let (headers, body) = read_headers count rest in
    ok (record { status = status; headers = headers; body = body })
read _ = err []

read_text-write_text : (t : Text) (rest : Bytes) → read_text (write_text t rest) ≡ (t, rest)
unfolding read_text write_text
read_text-write_text [] rest = refl
read_text-write_text (c ∷ t) rest = rw (read_text-write_text t rest)

read_headers-write_headers :
    (hs : List (Text × Text)) (rest : Bytes)
    → read_headers (length hs) (write_headers hs rest) ≡ (hs, rest)
unfolding read_headers write_headers
read_headers-write_headers [] rest = refl
read_headers-write_headers ((k, v) ∷ hs) rest =
    rw (read_text-write_text k _)
      (rw (read_text-write_text v _) (rw (read_headers-write_headers hs rest)))

read-write : (s : Serialized) → read (write s) ≡ ok s
unfolding read
read-write s = rw (read_headers-write_headers s.headers s.body)

read-written :
    (s : Serialized) (x : Bytes)
    → ◌≡◌ {A = Result (List Text) Bytes} (ok (write s)) (ok x)
    → read x ≡ ok s
read-written s x h = rw (← ok-injective (write s) x h) (read-write s)

unfoldable pub packed : Rkyv (List Text)
unfolding read read_headers read_text read-written read-write read_headers-write_headers
    read_text-write_text
packed = record {
  to_bytes = λ s. ok (write s);
  from_bytes = read;
  from_bytes-to_bytes = read-written;
}
