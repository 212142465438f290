-- ===== src/Dispatcher/Sniffer/Laws.antt =====
-- Sniffing ends after two reads, and takes no byte away from the connection.
use v2node_pro.Prelude.{
  append_assoc, ℕ, zero, suc, ◌+◌, ◌≤◌, String, ◌≡◌, ◌≢◌, refl, ◌∙◌, ap, Bool, true, false, ◌⊎◌,
  inl, inr, Option, some, is_some, List, [], ◌∷◌, ◌++◌, arith, Option-cases,
}
use v2node_pro.Prelude.Int.{ℤ, pos}
use v2node_pro.Dispatcher.Sniffer.{
  Network, unknown, same_network, ProtocolSniffer, no_clue, need_more_data, unknown_content,
  sniffing_timeout, other_error, Sniffed, Ending, matched, crashed, found, failed, panicked,
  conclude, sniff, sniff_loop, sniff_metadata, FakeDns, new_sniffer,
}
use v2node_pro.Dispatcher.Sniffer.Content.{
  Read, chunk, read_error, CachedReader, cache_read, Step, stop, again, step_of, look, minus,
  content_loop, combine, sniffer,
}

conclude-need_more_data :
    (sniffers : List ProtocolSniffer) (r : Option Ending × List ProtocolSniffer)
    → (conclude sniffers r).1 ≢ failed need_more_data
unfolding conclude
conclude-need_more_data sniffers (Option.some (matched result), pending) = λ e. cc e
conclude-need_more_data sniffers (Option.some crashed, pending) = λ e. cc e
conclude-need_more_data sniffers (Option.none, []) = λ e. cc e
conclude-need_more_data sniffers (Option.none, si ∷ pending) = λ e. cc e

step_of-again :
    (attempts k : ℕ) (s : List ProtocolSniffer × Sniffed)
    → s.1 ≢ failed need_more_data
    → (step_of attempts s).1 ≡ again k
    → k ≡ suc attempts
unfolding step_of
step_of-again attempts k (sniffers, found result) known e = cc e
step_of-again attempts k (sniffers, panicked) known e = cc e
step_of-again attempts k (sniffers, failed no_clue) known e = cc e
step_of-again attempts k (sniffers, failed need_more_data) known e = absurd (known refl)
step_of-again attempts k (sniffers, failed unknown_content) known e = cc e
step_of-again attempts k (sniffers, failed sniffing_timeout) known e = cc e
step_of-again attempts k (sniffers, failed (other_error m)) known e = cc e

look-again :
    (network : Network) (attempts k : ℕ) (sniffers : List ProtocolSniffer) (payload : List ℕ)
    → (look network attempts sniffers payload).1 ≡ again k
    → k ≡ suc attempts
unfolding look sniff
look-again network attempts k sniffers [] e = cc e
look-again network attempts k sniffers (b ∷ bs) e =
    step_of-again attempts k (sniff network (b ∷ bs) sniffers)
      (conclude-need_more_data sniffers (sniff_loop network (some (b ∷ bs)) sniffers [])) e

sum-cases {ℓ κ} :
    {A : Type ℓ} {B : Type κ} (s : A ⊎ B) → ((a : A) × (s ≡ inl a)) ⊎ ((b : B) × (s ≡ inr b))
sum-cases (inl a) = inl (a, refl)
sum-cases (inr b) = inr (b, refl)

bytes_of : List Read → List ℕ
bytes_of [] = []
bytes_of (chunk bytes elapsed ∷ rest) = bytes ++ bytes_of rest
bytes_of (read_error with_error message ∷ rest) = bytes_of rest

-- The bytes that a reader of the connection still gets without an error: the cached ones, then the
-- peer's.
unfoldable pub content_of : CachedReader → List ℕ
unfolding bytes_of
content_of r = r.cache ++ bytes_of r.source

cache_read-at :
    (c : List ℕ) (source : List Read)
    → content_of (cache_read (record { cache = c; source = source })).0 ≡ c ++ bytes_of source
unfolding content_of cache_read
cache_read-at c [] = refl
cache_read-at c (chunk bytes elapsed ∷ rest) = append_assoc c bytes (bytes_of rest)
cache_read-at c (read_error with_error message ∷ rest) = refl

cache_read-content : (r : CachedReader) → content_of (cache_read r).0 ≡ content_of r
unfolding content_of
cache_read-content r = cache_read-at r.cache r.source

Step-cases : (s : Step) → ((r : Sniffed) × (s ≡ stop r)) ⊎ ((k : ℕ) × (s ≡ again k))
Step-cases (Step.stop r) = inl (r, refl)
Step-cases (Step.again k) = inr (k, refl)

module _ (done : ℕ → Option String) (network : Network) where
  content_loop-content :
      (fuel round attempts : ℕ) (deadline : ℤ) (sniffers : List ProtocolSniffer)
      (r r' : CachedReader) (sniffed : Sniffed)
      → content_loop done network fuel round attempts deadline sniffers r ≡ some (r', sniffed)
      → content_of r' ≡ content_of r
  unfolding content_loop
  content_loop-content zero round attempts deadline sniffers r r' sniffed e = cc e
  content_loop-content (suc fuel) round attempts deadline sniffers r r' sniffed e =
      elim (Option-cases (done round)) [
        | inr (m, ended) ↦ ground (arith, ended, e)
        | inl running ↦ elim (sum-cases (cache_read r).1) [
          | inl (m, broken) ↦ ground (arith, running, broken, e, cache_read-content r)
          | inr (p, got) ↦ elim (Step-cases (look network attempts sniffers p.0).1) [
            | inl (s, stopped) ↦ ground (arith, running, got, stopped, e, cache_read-content r)
            | inr (k, goes_on) ↦ ground (
              arith,
              running,
              got,
              goes_on,
              e,
              cache_read-content r,
              content_loop-content fuel (suc round) k (minus deadline p.1)
                  (look network attempts sniffers p.0).0 (cache_read r).0 r' sniffed,
            )
          ]
        ]
      ]

  -- From one attempt on, one round is enough.
  content_loop-ends :
      (round attempts : ℕ) (deadline : ℤ) (sniffers : List ProtocolSniffer) (r : CachedReader)
      (fuel : ℕ)
      → 2 ≤ fuel + attempts
      → 1 ≤ fuel
      → is_some (content_loop done network fuel round attempts deadline sniffers r) ≡ true
  unfolding content_loop
  content_loop-ends round attempts deadline sniffers r zero enough some_fuel = ground arith
  content_loop-ends round attempts deadline sniffers r (suc fuel) enough some_fuel =
      elim (Option-cases (done round)) [
        | inr (m, ended) ↦ ground (arith, ended)
        | inl running ↦ elim (sum-cases (cache_read r).1) [
          | inl (m, broken) ↦ ground (arith, running, broken)
          | inr (p, got) ↦ elim (Step-cases (look network attempts sniffers p.0).1) [
            | inl (s, stopped) ↦ ground (arith, running, got, stopped)
            | inr (k, goes_on) ↦ ground (
              arith,
              running,
              got,
              goes_on,
              enough,
              look-again network attempts k sniffers p.0,
              content_loop-ends (suc round) k (minus deadline p.1)
                  (look network attempts sniffers p.0).0 (cache_read r).0 fuel,
            )
          ]
        ]
      ]

  -- Whatever the peer sends, when, and whatever Xray's sniffers answer, `sniffer` ends after at
  -- most two reads, with a result, an error or a sniffer's panic; and the bytes that the connection's reader gives afterwards, the cached ones
  -- first, are those that it would have given without the sniffing: none is lost, doubled or
  -- moved, those aside that the connection gives together with an error.
  pub sniffer-content :
      (metadata_only : Bool) (sniffers : List ProtocolSniffer) (r : CachedReader)
      → (r' : CachedReader) × (sniffed : Sniffed) × (sniffer done network metadata_only sniffers r
          ≡ some (r', sniffed))
        × (content_of r' ≡ content_of r)
  unfolding sniffer
  sniffer-content true sniffers r = (r, (sniff_metadata sniffers).1, refl, refl)
  sniffer-content false sniffers r =
      elim (Option-cases
        (content_loop done network 2 0 0 (pos 200000000) (sniff_metadata sniffers).0 r)) [
          | inl starved ↦ ground (
            arith,
            starved,
            content_loop-ends 0 0 (pos 200000000) (sniff_metadata sniffers).0 r 2 (omega arith)
                (omega arith),
          )
          | inr (p, ended) ↦ (
            p.0,
            combine done network (sniff_metadata sniffers).1 p.1,
            ground (arith, ended),
            content_loop-content 2 0 0 (pos 200000000) (sniff_metadata sniffers).0 r p.0 p.1 ended,
          )
        ]

sniff_loop-skips :
    (network : Network) (payload : Option (List ℕ)) (xs : List ProtocolSniffer)
    (x : ProtocolSniffer) (pending : List ProtocolSniffer)
    → x.is_metadata ≡ true
    → sniff_loop network payload (xs ++ (x ∷ [])) pending ≡ sniff_loop network payload xs pending
unfolding sniff_loop
sniff_loop-skips network payload [] x pending meta = ground (arith, meta)
sniff_loop-skips network payload (y ∷ ys) x pending meta = cc (
  sniff_loop-skips network payload ys x pending meta,
  sniff_loop-skips network payload ys x (pending ++ (y ∷ [])) meta,
)

conclude-answer :
    (xs ys : List ProtocolSniffer) (r : Option Ending × List ProtocolSniffer)
    → (conclude xs r).1 ≡ (conclude ys r).1
unfolding conclude
conclude-answer xs ys (Option.some (matched result), pending) = refl
conclude-answer xs ys (Option.some crashed, pending) = refl
conclude-answer xs ys (Option.none, []) = refl
conclude-answer xs ys (Option.none, si ∷ pending) = refl

skips_unknown :
    (network : Network) (payload : List ℕ) (protocols : List ProtocolSniffer) (fake : FakeDns)
    (is_routed : Bool)
    → same_network unknown network ≡ false
    → sniff_loop network (some payload) (new_sniffer protocols (some fake) is_routed) []
      ≡ sniff_loop network (some payload) protocols []
unfolding new_sniffer sniff_loop
skips_unknown network payload protocols fake is_routed known =
    rw (known) (sniff_loop-skips network (some payload) protocols _ [] refl)

-- Sniffing the bytes of a TCP or UDP connection never asks for more data, even if a sniffer did;
-- and a fake DNS engine makes no difference to its result: the sniffer of "fakedns+others", which
-- has no network, is skipped.
pub sniff_lem :
    (network : Network) (payload : List ℕ) (protocols : List ProtocolSniffer)
    (engine : Option FakeDns) (is_routed : Bool)
    → same_network unknown network ≡ false
    → ((sniff network payload protocols).1 ≢ failed need_more_data)
      × ((sniff network payload (new_sniffer protocols engine is_routed)).1
          ≡ (sniff network payload protocols).1)
unfolding sniff new_sniffer
sniff_lem network payload protocols (Option.none) is_routed known =
    (conclude-need_more_data protocols (sniff_loop network (some payload) protocols []), refl)
sniff_lem network payload protocols (Option.some fake) is_routed known = (
  conclude-need_more_data protocols (sniff_loop network (some payload) protocols []),
  ap (λ r. (conclude (new_sniffer protocols (some fake) is_routed) r).1)
        (skips_unknown network payload protocols fake is_routed known)
      ∙ conclude-answer _ protocols (sniff_loop network (some payload) protocols []),
)
