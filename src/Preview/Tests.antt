-- ===== src/Preview/Tests.antt =====
-- The analysis at a concrete text.
use realworld_tutorial.Base.{◌≡◌, refl, ok, codes}
use realworld_tutorial.Preview.{collapse_from, split_spaces, word_count_of, analyze}
use realworld_tutorial.Preview.Analysis.{Analyzes, analyze_lem}

two_words :
    analyze (codes " one\n \t two ")
    ≡ ok (record { excerpt = codes "one two"; word_count = 2; reading_time_minutes = 1 })
unfolding analyze collapse_from word_count_of split_spaces
two_words = refl

analyze_lem_example : Analyzes (codes " one\n \t two ") (analyze (codes " one\n \t two "))
analyze_lem_example = analyze_lem (codes " one\n \t two ")
