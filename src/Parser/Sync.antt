-- ===== src/Parser/Sync.antt =====
-- src/parser/parser.c: the recovery after an error.
use snuk.Prelude.{
  ℕ, zero, suc, ◌<◌, Bool, true, false, ◌||◌, ◌&&◌, not, List, [], ◌∷◌, length, ◌≡◌, refl, arith,
}
use snuk.Lexer.Token
use snuk.Lexer.Token.{TokenType, Token}
use snuk.Parser.Enum.{same_type}
use snuk.Parser.Syntax
use snuk.Parser.Syntax.{SnukItem}
use snuk.Parser.State.{
  Parser, done, parser_advance, parser_match_item_end, check_item_end, raise_error, take_next,
}
use snuk.Parser.Whole.{skip_to_item_end, parser_sync}
use snuk.Parser.Statements.{EndsItem}
use snuk.Parser.Stream.{◌▸◌, ahead, behind, at_stream, is_wrong, advance_lem}
use snuk.Parser.Variables.{at_item_end, item_end_lem}

-- The token ends no item and is no error.
abbrev pub is_inside : TokenType → Bool
is_inside t =
    not (same_type t Token.semicolon)
    && not (same_type t Token.vsemicolon)
    && not (same_type t Token.eof)
    && not (same_type t Token.error)

inside_parts :
    (t : TokenType)
    → is_inside t ≡ true
    → ((same_type t Token.semicolon || same_type t Token.vsemicolon || same_type t Token.eof)
        ≡ false)
      × (same_type t Token.error ≡ false)
inside_parts t h = (ground arith, ground arith)

module _ {F : Type 0} where
  abbrev pub are_inside : List (Token F) → Bool
  are_inside [] = true
  are_inside (t ∷ ts) = is_inside t.type && are_inside ts

  inside_both :
      (t : Token F) (ts : List (Token F))
      → are_inside (t ∷ ts) ≡ true
      → (is_inside t.type ≡ true) × (are_inside ts ≡ true)
  inside_both t ts h = both (is_inside t.type) (are_inside ts) h
    where
      both : (a b : Bool) → (a && b) ≡ true → (a ≡ true) × (b ≡ true)
      both true b h = (refl, h)
      both false b h = absurd (ground arith)

  inside-start :
      (ts : List (Token F)) (t : Token F) (s : ℕ → Token F)
      → are_inside ts ≡ true
      → EndsItem t.type
      → is_wrong (ts ▸ ahead t s) ≡ false
  inside-start [] t s h k = (item_end_lem k).right
  inside-start (x ∷ ts) t s h k = (inside_parts x.type (inside_both x ts h).0).1

  skip_lem :
      (ts : List (Token F)) (rounds : ℕ) (q : Parser F) (prev t : Token F) (s : ℕ → Token F)
      → are_inside ts ≡ true
      → EndsItem t.type
      → is_wrong s ≡ false
      → length ts < rounds
      → skip_to_item_end rounds (at_stream q prev (ts ▸ ahead t s)) ≡ done tt (at_stream q t s)
  unfolding skip_to_item_end parser_match_item_end check_item_end
  skip_lem ts zero q prev t s h k ok_next lt = absurd (omega (arith, lt))
  skip_lem [] (suc rounds) q prev t s h k ok_next lt =
      let ended : (same_type t.type Token.semicolon
            || same_type t.type Token.vsemicolon
            || same_type t.type Token.eof)
          ≡ true =
        at_item_end q prev t s t.type refl k in
      rw (ended, advance_lem q prev (ahead t s) ok_next) refl
  skip_lem (x ∷ ts) (suc rounds) q prev t s h k ok_next lt =
      let (here, there) = inside_both x ts h in
      rw
        (
          (inside_parts x.type here).0,
          advance_lem q prev ((x ∷ ts) ▸ ahead t s) (inside-start ts t s there k),
        )
        (skip_lem ts rounds q x t s there k ok_next (omega (arith, lt)))

  -- Behind an error inside of an item the parser skips the tokens that end no item and are no
  -- errors, takes the token that ends the item, and gives the error as the item, with no error
  -- pending; the token taken last before is no semicolon, the next one behind is no error, and
  -- there are more rounds than tokens to skip.
  pub sync_lem :
      (ts : List (Token F)) (rounds : ℕ) (q : Parser F) (prev t : Token F) (s : ℕ → Token F)
      → same_type prev.type Token.vsemicolon ≡ false
      → same_type prev.type Token.semicolon ≡ false
      → are_inside ts ≡ true
      → EndsItem t.type
      → same_type (s 0).type Token.error ≡ false
      → length ts < rounds
      → parser_sync rounds (at_stream q prev (ts ▸ ahead t s))
        ≡ done
            (Syntax.item_error q.err_msg q.err_token)
            (at_stream (record q { panic_mode = false }) t s)
  unfolding parser_sync
  sync_lem ts rounds q prev t s a b h k ok_next lt =
      rw (a, b, skip_lem ts rounds (record q { panic_mode = false }) prev t s h k ok_next lt) refl

  advance-error :
      (q : Parser F) (prev : Token F) (s : ℕ → Token F)
      → is_wrong (behind s) ≡ true
      → parser_advance (at_stream (record q { panic_mode = false }) prev s)
        ≡ done tt (
            at_stream
              (record q { panic_mode = true; err_msg = "lexer error"; err_token = s 1 })
              (s 0)
              (behind s))
  unfolding parser_advance raise_error take_next
  advance-error q prev s h = rw h refl

  -- An error of the lexer that stands behind one other token on the way to the end of the item
  -- stays pending behind the recovery, and takes the place of the error that was reported; the
  -- token taken last before is no semicolon, the next one behind is no error, and there are three
  -- rounds.
  pub sync-lexer_error :
      (rounds : ℕ) (q : Parser F) (prev x y t : Token F) (s : ℕ → Token F)
      → same_type prev.type Token.vsemicolon ≡ false
      → same_type prev.type Token.semicolon ≡ false
      → is_inside x.type ≡ true
      → y.type ≡ Token.error
      → EndsItem t.type
      → same_type (s 0).type Token.error ≡ false
      → parser_sync (suc (suc (suc rounds))) (at_stream q prev ((x ∷ y ∷ t ∷ []) ▸ s))
        ≡ done
            (Syntax.item_error "lexer error" y)
            (at_stream (record q { panic_mode = true; err_msg = "lexer error"; err_token = y }) t s)
  unfolding parser_sync skip_to_item_end parser_match_item_end check_item_end same_type
  sync-lexer_error rounds q prev x y t s a b h e k ok_next =
      let no_end : (same_type y.type Token.semicolon
            || same_type y.type Token.vsemicolon
            || same_type y.type Token.eof)
          ≡ false =
        rw e refl in
      let q' = record q { panic_mode = true; err_msg = "lexer error"; err_token = y } in
      rw
        (
          a,
          b,
          (inside_parts x.type h).0,
          advance-error q prev ((x ∷ y ∷ t ∷ []) ▸ s) (rw e refl),
          no_end,
          advance_lem q' x ((y ∷ t ∷ []) ▸ s) (item_end_lem k).right,
          skip_lem [] (suc rounds) q' y t s refl k ok_next (omega arith),
        )
        refl
