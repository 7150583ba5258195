-- ===== src/Proxy/Collector/Prefix.antt =====
-- What `StreamArchiveCollector` of proxy/relay.py keeps of a stream.
use nf_safety_hub.Prelude.{
  ℕ, zero, suc, ◌-◌, ◌≤◌, List, [], ◌∷◌, ◌++◌, append_assoc, append-nil, length, length-append,
  length-take, take, take-append, take-nil, ltb, leb, max, min, ◌≡◌, refl, sym, ap, ◌∙◌, arith,
  Bool-cases, inl, inr,
}
use nf_safety_hub.Prelude.Text.{Text}
use nf_safety_hub.Proxy.Collector.{Collector, new, add, add_all, concat, Payload, payload}

concat-append : (xs ys : List Text) → concat (xs ++ ys) ≡ concat xs ++ concat ys
concat-append [] ys = refl
concat-append (x ∷ xs) ys = rw (concat-append xs ys) (sym (append_assoc x (concat xs) (concat ys)))

-- The collector has seen `seen`: it keeps its first bytes, and knows both lengths.
record Keeps (seen : Text) (c : Collector) : Type 0 where
  kept : concat c.chunks ≡ take c.max_bytes seen
  archived : c.archived_bytes ≡ min c.max_bytes (length seen)
  original : c.original_bytes ≡ length seen

take_full : (n : ℕ) (seen chunk : Text) → n ≤ length seen → take n (seen ++ chunk) ≡ take n seen
take_full zero seen chunk h = refl
take_full (suc n) [] chunk h = absurd (omega arith)
take_full (suc n) (x ∷ seen) chunk h = ap (λ t. x ∷ t) (take_full n seen chunk (omega arith))

add-Keeps : (seen chunk : Text) (c : Collector) → Keeps seen c → Keeps (seen ++ chunk) (add c chunk)
unfolding add
add-Keeps seen chunk c k = elim (Bool-cases (leb c.max_bytes c.archived_bytes)) [
  | inl full ↦ rw full (record {
    kept = k.kept ∙ sym (take_full c.max_bytes seen chunk (ground (arith, k.archived)));
    archived = ground (arith, k.archived, length-append seen chunk);
    original = omega (arith, k.original, length-append seen chunk);
  })
  | inr room ↦ rw room (record {
    kept = rw (concat-append c.chunks (take (c.max_bytes - c.archived_bytes) chunk ∷ [])) (
        rw (append-nil (take (c.max_bytes - c.archived_bytes) chunk)) (
          rw (take-append c.max_bytes seen chunk) (
            rw k.kept
              (ap (λ n. take c.max_bytes seen ++ take n chunk) (ground (arith, k.archived))))));
    archived = ground (
      arith,
      k.archived,
      length-append seen chunk,
      length-take (c.max_bytes - c.archived_bytes) chunk,
    );
    original = omega (arith, k.original, length-append seen chunk);
  })
]

max_bytes-add : (c : Collector) (chunk : Text) → (add c chunk).max_bytes ≡ c.max_bytes
unfolding add
max_bytes-add c chunk = ground arith

add_all-Keeps :
    (chunks : List Text) (seen : Text) (c : Collector)
    → Keeps seen c
    → Keeps (seen ++ concat chunks) (add_all c chunks)
      × ((add_all c chunks).max_bytes ≡ c.max_bytes)
unfolding add_all
add_all-Keeps [] seen c k = (rw (append-nil seen) k, refl)
add_all-Keeps (chunk ∷ rest) seen c k =
    let (kept, same) =
      add_all-Keeps rest (seen ++ chunk) (add c chunk) (add-Keeps seen chunk c k) in
    (rw (← append_assoc seen chunk (concat rest)) kept, same ∙ max_bytes-add c chunk)

new-Keeps : (n : ℕ) → Keeps [] (new n)
unfolding new
new-Keeps n = record { kept = sym (take-nil (max 1 n)); archived = omega arith; original = refl }

max_bytes-new : (n : ℕ) → (new n).max_bytes ≡ max 1 n
unfolding new
max_bytes-new n = refl

-- However a stream is cut into chunks, its archive is the first bytes of the whole stream, as many as
-- the limit (one at least) allows; it counts the bytes kept and the bytes seen, and says "truncated"
-- exactly if some byte was not kept.
pub payload-add_all :
    (max_bytes : ℕ) (chunks : List Text)
    → let p : Payload = payload (add_all (new max_bytes) chunks) in
      (p.content ≡ take (max 1 max_bytes) (concat chunks))
      × (p.archived_bytes ≡ length p.content)
      × (p.original_bytes ≡ length (concat chunks))
      × (p.truncated ≡ ltb (length p.content) (length (concat chunks)))
unfolding payload
payload-add_all max_bytes chunks =
    let (k, same) = add_all-Keeps chunks [] (new max_bytes) (new-Keeps max_bytes) in
    let limit : (add_all (new max_bytes) chunks).max_bytes ≡ max 1 max_bytes =
      same ∙ max_bytes-new max_bytes in
    let kept_length =
      ap (λ t. length t) k.kept
      ∙ length-take (add_all (new max_bytes) chunks).max_bytes (concat chunks) in
    (
      k.kept ∙ ap (λ n. take n (concat chunks)) limit,
      k.archived ∙ sym kept_length,
      k.original,
      ground (arith, k.original, kept_length),
    )
