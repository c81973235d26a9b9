-- ===== src/Fetch/Body.antt =====
-- packages/core/src/fetch.ts: what readCapped lets through.
use hyperfixation_core.Prelude.{
  ℕ, ◌+◌, ◌≤◌, ◌<◌, Option, none, some, List, [], ◌∷◌, ◌++◌, ◌≡◌, length,
}
use hyperfixation_core.State.{Error}
use hyperfixation_core.Fetch.{Capped, whole, too_large, broken, body_limit}

-- The bytes of a stream, and of its longest chunk.
unfoldable pub joined : List (List ℕ) → List ℕ
joined [] = []
joined (c ∷ cs) = c ++ joined cs

-- Of a body that is read, with the bytes that stand before it: it is the whole stream, within the
-- limit, and the stream ended; one that is refused is over the limit.
pub data Reads (bytes : ℕ) (chunks : List (List ℕ)) (end : Option Error) : Capped → Type 0 where
  read_all :
      end ≡ none
      → bytes + length (joined chunks) ≤ body_limit
      → Reads bytes chunks end (whole (some (joined chunks)))
  over :
      (n : ℕ)
      → body_limit < n
      → n ≤ bytes + length (joined chunks)
      → Reads bytes chunks end (too_large n)
  broke :
      (e : Error)
      → end ≡ some e
      → bytes + length (joined chunks) ≤ body_limit
      → Reads bytes chunks end (broken e)
