-- ===== src/Tests/Texts.antt =====
-- The text methods on concrete texts.
use kilix_telemetry.Common.{◌≡◌, refl, true, some, [], ◌∷◌}
use kilix_telemetry.Text.{split, split_lines, split_at, rfind, strip}

split_test : split "  cpu0 1\t20 \n" ≡ "cpu0" ∷ "1" ∷ "20" ∷ []
unfolding split
split_test = refl

lines_test : split_lines "a\r\n\nbc\n" ≡ "a" ∷ "" ∷ "bc" ∷ []
unfolding split_lines
lines_test = refl

partition_test : split_at b':' "MemTotal: 12 kB" ≡ ("MemTotal", true, " 12 kB")
unfolding split_at
partition_test = refl

rfind_test : rfind b')' "7 (a) b) S" ≡ some 7
unfolding rfind
rfind_test = refl

strip_test : strip "\t a b \n" ≡ "a b"
unfolding strip
strip_test = refl
