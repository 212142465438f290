-- ===== src/Dispatcher/Sniffer/Content.antt =====
-- core/app/dispatcher/default.go: the cachedReader, and the `sniffer` function that looks at the
-- first bytes of a connection through it. A read takes some of the 200 ms that sniffing has.
use v2node_pro.Prelude.{
  ℕ, zero, suc, ◌+◌, String, Bool, true, false, ◌||◌, ◌⊎◌, inl, inr, Option, none, some, List, [],
  ◌∷◌, ◌++◌, if◌then◌else◌, leb,
}
use v2node_pro.Prelude.Int.{ℤ, pos, sub_ℕ, pos_part, neg_part}
use v2node_pro.Dispatcher.Sniffer.{
  Network, ProtocolSniffer, no_clue, need_more_data, unknown_content, sniffing_timeout, other_error,
  Sniffed, found, failed, panicked, sniff, sniff_metadata, composite_result,
}

-- What the underlying reader gives next: bytes, after a time in ns, or an error, which bytes may
-- come with.
pub data Read : Type 0 where
  chunk : List ℕ → (elapsed : ℕ) → Read
  read_error : (with_error : List ℕ) → String → Read

pub record CachedReader : Type 0 where
  pub cache : List ℕ
  pub source : List Read

abbrev pub is_empty : List ℕ → Bool
is_empty [] = true
is_empty (b ∷ bs) = false

unfoldable pub take : ℕ → List ℕ → List ℕ
take zero bs = []
take (suc n) [] = []
take (suc n) (b ∷ bs) = b ∷ take n bs

-- cachedReader.Cache: the bytes that it copies to the payload and the time it took, or an error; the
-- bytes that come with an error are dropped. The payload has room for 32767 bytes. A source that has ended gives io.EOF.
unfoldable pub cache_read : CachedReader → CachedReader × (String ⊎ (List ℕ × ℕ))
unfolding take
cache_read r = elim r.source [
  | [] ↦ (r, inl "EOF")
  | x ∷ rest ↦ elim x [
    | chunk bytes elapsed ↦
        let cached = r.cache ++ bytes in
        (record { cache = cached; source = rest }, inr (take 32767 cached, elapsed))
    | read_error with_error message ↦ (record r { source = rest }, inl message)
  ]
]

-- cachedReader.readInternal
unfoldable pub read_internal : CachedReader → CachedReader × Option (List ℕ)
read_internal r = if is_empty r.cache then (r, none) else (record r { cache = [] }, some r.cache)

-- cachedReader.ReadMultiBuffer and ReadMultiBufferTimeout
unfoldable pub read_multi_buffer : CachedReader → CachedReader × List ℕ × Option String
unfolding read_internal
read_multi_buffer r = elim (read_internal r).1 [
  | some bytes ↦ ((read_internal r).0, bytes, none)
  | none ↦ elim r.source [
    | [] ↦ (r, [], some "EOF")
    | x ∷ rest ↦ elim x [
      | chunk bytes elapsed ↦ (record r { source = rest }, bytes, none)
      | read_error with_error message ↦ (record r { source = rest }, with_error, some message)
    ]
  ]
]

-- what the loop of `sniffer` does next: return, or count its attempts and go on
pub data Step : Type 0 where
  stop : Sniffed → Step
  again : ℕ → Step

unfoldable pub step_of : ℕ → List ProtocolSniffer × Sniffed → List ProtocolSniffer × Step
step_of attempts (sniffers, found result) = (sniffers, stop (found result))
step_of attempts (sniffers, panicked) = (sniffers, stop panicked)
step_of attempts (sniffers, failed no_clue) = (sniffers, again (suc attempts))
step_of attempts (sniffers, failed need_more_data) = (sniffers, again attempts)
step_of attempts (sniffers, failed unknown_content) = (sniffers, stop (failed unknown_content))
step_of attempts (sniffers, failed sniffing_timeout) = (sniffers, stop (failed sniffing_timeout))
step_of attempts (sniffers, failed (other_error m)) = (sniffers, stop (failed (other_error m)))

unfoldable pub look : Network → ℕ → List ProtocolSniffer → List ℕ → List ProtocolSniffer × Step
unfolding step_of sniff
look network attempts sniffers payload =
    if is_empty payload
    then (sniffers, again (suc attempts))
    else step_of attempts (sniff network payload sniffers)

abbrev pub minus : ℤ → ℕ → ℤ
minus a n = sub_ℕ (pos_part a) (neg_part a + n)

abbrev pub is_over : ℤ → Bool
is_over a = leb (pos_part a) 0

module _ (done : ℕ → Option String) (network : Network) where
  -- The loop, on fuel. `done` says after how many rounds the context has ended, and why.
  unfoldable pub content_loop :
      (fuel round attempts : ℕ)
      → ℤ
      → List ProtocolSniffer
      → CachedReader
      → Option (CachedReader × Sniffed)
  unfolding cache_read look
  content_loop zero round attempts deadline sniffers r = none
  content_loop (suc fuel) round attempts deadline sniffers r =
      let (r', read) = cache_read r in
      elim (done round) [
        | some message ↦ some (r, failed (other_error message))
        | none ↦ elim read [
          | inl message ↦ some (r', failed (other_error message))
          | inr (payload, elapsed) ↦
              let left = minus deadline elapsed in
              let (sniffers', step) = look network attempts sniffers payload in
              elim step [
                | stop sniffed ↦ some (r', sniffed)
                | again attempts' ↦
                    let rest = content_loop fuel (suc round) attempts' left sniffers' r' in
                    if leb 2 attempts' || is_over left
                    then some (r', failed sniffing_timeout)
                    else rest
              ]
        ]
      ]

  unfoldable pub combine : Sniffed → Sniffed → Sniffed
  unfolding composite_result
  combine (found meta) (found content) = found (composite_result meta content)
  combine (found meta) (failed e) = found meta
  combine (found meta) panicked = panicked
  combine (failed e) content = content
  combine panicked content = panicked

  -- `sniffer`, with fuel for two rounds
  unfoldable pub sniffer :
      (metadata_only : Bool) → List ProtocolSniffer → CachedReader → Option (CachedReader × Sniffed)
  unfolding content_loop combine sniff_metadata
  sniffer metadata_only sniffers r =
      let (sniffers', meta) = sniff_metadata sniffers in
      if metadata_only
      then some (r, meta)
      else elim (content_loop 2 0 0 (pos 200000000) sniffers' r) [
        | none ↦ none
        | some (r', content) ↦ some (r', combine meta content)
      ]
