-- ===== src/Runner/Escapes/Tests.antt =====
-- Values of workflow commands.
use open_actions.Base.{◌≡◌, refl}
use open_actions.Base.Text.{runes}
use open_actions.Runner.Escapes.{
  has_prefix, replace_all, replace_escape, unescape_double_colon_data,
  unescape_double_colon_property, unescape_bracket_value,
}

-- The last one was written for `%25`: the lower-case spelling of `%25` is the same, so that it is
-- replaced twice.
unescapes :
    (unescape_double_colon_data (runes "a%0Ab%25") ≡ runes "a\nb%")
    × (unescape_double_colon_property (runes "%3a%2C") ≡ runes ":,")
    × (unescape_bracket_value (runes "%5D%3b") ≡ runes "];")
    × (unescape_double_colon_data (runes "%2525") ≡ runes "%")
unfolding has_prefix replace_all replace_escape unescape_double_colon_data
    unescape_double_colon_property unescape_bracket_value runes
unescapes = (refl, refl, refl, refl)
