-- ===== src/Transport/Query.antt =====
-- src/transport.rs: the query of `http_pull_batch`, read by `parse_cursor_limit`.
use rustory.Prelude.{ℕ, ℤ, Text, codes, some, ◌∷◌, ◌++◌, ◌≡◌, ◌≢◌, refl, All, arith, text_eq}
use rustory.Prelude.Words.{split_once, parse_i64, parse_usize, split_on-none, split_on-append}
use rustory.Errors.{ok}
use rustory.Transport.{query_part, query_loop, parse_cursor_limit}

-- `cursor={}&limit={}`
unfoldable pub pull_query : Text → Text → Text
pull_query cursor limit = (codes "cursor=" ++ cursor) ++ 38 ∷ (codes "limit=" ++ limit)

-- A text without `&`.
abbrev pub IsPart : Text → Type 0
IsPart = All (λ d. d ≢ 38)

-- The server reads the cursor and the limit back from the query that a pull sends, where the two
-- texts are numbers of their ranges.
pub parse_cursor_limit-pull_query :
    (v w : Text) (cursor : ℤ) (limit : ℕ)
    → IsPart v
    → IsPart w
    → parse_i64 v ≡ some cursor
    → parse_usize w ≡ some limit
    → parse_cursor_limit (some (pull_query v w)) ≡ ok (cursor, limit)
unfolding parse_cursor_limit pull_query query_loop query_part split_once text_eq
parse_cursor_limit-pull_query v w cursor limit hv hw cv cw =
    rw
      (
        split_on-append 38 (codes "cursor=" ++ v) (codes "limit=" ++ w) (
          omega arith,
          (
            omega arith,
            (omega arith, (omega arith, (omega arith, (omega arith, (omega arith, hv))))),
          ),
        ),
        split_on-none 38 (codes "limit=" ++ w) (
          omega arith,
          (omega arith, (omega arith, (omega arith, (omega arith, (omega arith, hw))))),
        ),
        query_loop,
        cv,
        cw,
      )
      refl
