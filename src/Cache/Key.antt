-- ===== src/Cache/Key.antt =====
-- scripts/ci/cache_gc.py: `PREFIX_RE`, `REST_RE` and `parse_key`, which scripts/ci/cache_pick.py
-- repeats word for word. A key is read as an ASCII text.
pub mod Layout
pub mod RoundTrip
use sp1_lean.Base.{ℕ, Option, none, some, List, [], ◌∷◌, String, Text, codes, refl, ◌≡◌}
use sp1_lean.Base.{◌>>=◌, or_else}
use sp1_lean.Regex.{
  Regex, seq, alt, group, at_end, lit, times, plus, opt, is_digit, is_hex, is_alnum, is_dot, match,
  captured,
}

-- sp1-v\d+-[A-Za-z0-9]+-[0-9a-f]{64}
unfoldable pub prefix_body : Regex
prefix_body = seq (lit (codes "sp1-v")) (
    seq (plus is_digit)
      (seq (lit (codes "-")) (seq (plus is_alnum) (seq (lit (codes "-")) (times 64 is_hex)))))

unfoldable pub prefix_re : Regex
prefix_re =
    seq (group "prefix" prefix_body)
      (seq (lit (codes "-")) (seq (group "rest" (plus is_dot)) at_end))

-- align-test|test|align|core, tried in this order
unfoldable pub kind_re : Regex
kind_re =
    alt (lit (codes "align-test"))
      (alt (lit (codes "test")) (alt (lit (codes "align")) (lit (codes "core"))))

unfoldable pub kind_part : Regex
kind_part = seq (group "kind" kind_re) (lit (codes "-"))

unfoldable pub pr_part : Regex
pr_part = seq (lit (codes "pr")) (seq (group "pr" (plus is_digit)) (lit (codes "-")))

unfoldable pub sha_part : Regex
sha_part = seq (group "sha" (times 40 is_hex)) (
    seq (lit (codes "-")) (
      seq (group "run" (plus is_digit))
        (seq (lit (codes "-")) (seq (group "attempt" (plus is_digit)) at_end))))

unfoldable pub rest_re : Regex
rest_re = seq (opt kind_part) (seq (opt pr_part) sha_part)

-- The dict that `parse_key` returns.
pub record BuildKey : Type 0 where
  pub prefix : Text
  pub kind : Text
  pub pr : Option Text
  pub sha : Text

unfoldable pub parse_key : Text → Option BuildKey
unfolding match captured prefix_re rest_re prefix_body kind_part kind_re pr_part sha_part lit times
parse_key key = do
  m ← match prefix_re key
  rest ← captured "rest" m
  r ← match rest_re rest
  prefix ← captured "prefix" m
  sha ← captured "sha" r
  some (record {
    prefix = prefix;
    kind = or_else (captured "kind" r) (codes "core");
    pr = captured "pr" r;
    sha = sha;
  })
