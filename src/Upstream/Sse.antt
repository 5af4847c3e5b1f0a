-- ===== src/Upstream/Sse.antt =====
-- The loop of `stream_chat_completion`: which lines of the upstream's SSE answer become chunks.
-- A line is its list of code points. `json.loads` is the argument `loads`.
use aegis_gateway.Prelude.{
  ℕ, Bool, false, ◌||◌, Option, none, some, List, [], ◌∷◌, ◌++◌, if◌then◌else◌, ◌≡◌, refl, All,
  arith, map, ap, ◌∙◌,
}
use aegis_gateway.CodePoints.{lstrip, strip, remove_prefix, same, is_empty}
use mathlib.Core.List.{reverse, reverse-reverse, append-nil}

abbrev pub data_prefix : List ℕ
data_prefix = b'd' ∷ b'a' ∷ b't' ∷ b'a' ∷ b':' ∷ []

abbrev pub done_marker : List ℕ
done_marker = b'[' ∷ b'D' ∷ b'O' ∷ b'N' ∷ b'E' ∷ b']' ∷ []

-- How the generator ends: by `break` or the end of the answer, by the `ProviderError` of a chunk that
-- is not JSON, or by an exception of the HTTP client.
pub data Ending : Type 0 where
  finished malformed broken : Ending

pub record Chunks {ℓ} (C : Type ℓ) : Type ℓ where
  pub yielded : List C
  pub ending : Ending

module _ {ℓ} {C : Type ℓ} (loads : List ℕ → Option C) (intact : Bool) where
  abbrev stop : Ending → Chunks C
  stop ending = record { yielded = []; ending = ending }

  abbrev yield : C → Chunks C → Chunks C
  yield c later = record later { yielded = c ∷ later.yielded }

  -- The body of the loop on one line; `later` is the rest of the loop.
  on_data : List ℕ → Chunks C → Chunks C
  unfolding same
  on_data payload later =
      if is_empty payload || same payload done_marker
      then stop finished
      else elim (loads payload) [ none ↦ stop malformed | some c ↦ yield c later ]

  on_line : List ℕ → Chunks C → Chunks C
  unfolding on_data remove_prefix strip
  on_line line later = elim (remove_prefix data_prefix line) [
    | none ↦ later
    | some rest ↦ on_data (strip rest) later
  ]

  -- `aiter_lines` gives the lines and then ends, or raises if the answer is not `intact`.
  unfoldable pub stream_chat_completion : List (List ℕ) → Chunks C
  unfolding on_line
  stream_chat_completion [] = stop (if intact then finished else broken)
  stream_chat_completion (line ∷ lines) = on_line line (stream_chat_completion lines)

-- A text that `strip` leaves alone, that is not empty and not the end marker.
pub record IsPayload (text : List ℕ) : Type 0 where
  pub trimmed_left : lstrip text ≡ text
  pub trimmed_right : lstrip (reverse text) ≡ reverse text
  pub not_empty : is_empty text ≡ false
  pub not_marker : same text done_marker ≡ false

strip-space : (text : List ℕ) → IsPayload text → strip (b' ' ∷ text) ≡ text
unfolding strip lstrip
strip-space text h = rw (h.trimmed_left) (rw (h.trimmed_right) (reverse-reverse text))

module _ {ℓ} {C : Type ℓ} (loads : List ℕ → Option C) (dumps : C → List ℕ) (intact : Bool) where
  -- An upstream's line for a chunk.
  abbrev pub frame : C → List ℕ
  frame c = data_prefix ++ b' ' ∷ dumps c

  on_line-frame :
      (c : C) (later : Chunks C)
      → IsPayload (dumps c)
      → loads (dumps c) ≡ some c
      → on_line loads intact (frame c) later
        ≡ record { yielded = c ∷ later.yielded; ending = later.ending }
  unfolding on_line on_data remove_prefix
  on_line-frame c later h back =
      let trim = strip-space (dumps c) h in
      rw trim (ground (arith, h.not_empty, h.not_marker, back))

  -- Lines that frame chunks yield those chunks, and then whatever the lines below them yield.
  frames-prefix :
      (cs : List C) (lines : List (List ℕ))
      → All (λ c. IsPayload (dumps c) × (loads (dumps c) ≡ some c)) cs
      → stream_chat_completion loads intact (map frame cs ++ lines) ≡ record {
        yielded = cs ++ (stream_chat_completion loads intact lines).yielded;
        ending = (stream_chat_completion loads intact lines).ending;
      }
  unfolding stream_chat_completion
  frames-prefix [] lines h = refl
  frames-prefix (c ∷ cs) lines h =
      on_line-frame c (stream_chat_completion loads intact (map frame cs ++ lines)) h.0.0 h.0.1
      ∙ ap (λ (k : Chunks C). record { yielded = c ∷ k.yielded; ending = k.ending })
          (frames-prefix cs lines h.1)

  abbrev pub done_line : List ℕ
  done_line = data_prefix ++ b' ' ∷ done_marker

  stream-done :
      (lines : List (List ℕ))
      → stream_chat_completion loads intact (done_line ∷ lines)
        ≡ record { yielded = []; ending = finished }
  unfolding stream_chat_completion lstrip
  stream-done lines = refl

  stream-nil :
      stream_chat_completion loads intact []
      ≡ record { yielded = []; ending = if intact then finished else broken }
  unfolding stream_chat_completion
  stream-nil = refl

  stream-cut :
      (cs : List C)
      → All (λ c. IsPayload (dumps c) × (loads (dumps c) ≡ some c)) cs
      → stream_chat_completion loads intact (map frame cs)
        ≡ record { yielded = cs; ending = if intact then finished else broken }
  stream-cut cs h = simp (append-nil, stream-nil) at (frames-prefix cs [] h)

  -- An answer that frames chunks and then ends by the marker yields exactly those chunks, in order,
  -- and finishes, whatever lines follow the marker. One that breaks off after the chunks yields
  -- them and ends in the client's exception. (`loads` undoes `dumps` on the chunks, and
  -- their texts are payloads.)
  pub stream-frames :
      (cs : List C) (rest : List (List ℕ))
      → All (λ c. IsPayload (dumps c) × (loads (dumps c) ≡ some c)) cs
      → (stream_chat_completion loads intact (map frame cs ++ done_line ∷ rest)
          ≡ record { yielded = cs; ending = finished })
        × (stream_chat_completion loads intact (map frame cs)
            ≡ record { yielded = cs; ending = if intact then finished else broken })
  stream-frames cs rest h =
      (simp (frames-prefix cs (done_line ∷ rest) h, stream-done, append-nil), stream-cut cs h)
