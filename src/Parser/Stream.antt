-- ===== src/Parser/Stream.antt =====
-- What the parsers use of the crates `syn` and `quote`: a cursor over tokens that is peeked at and
-- consumed, and the tokens that `quote!` puts in front of others. Both are parameters.
use sml_rs.Base.{ℕ, ◌+◌, ◌<◌, ◌≡◌, Bool, true, false, Result, ok}

-- The tokens that the guard grammar knows by name: `||`, `&&`, `!` and `async`.
pub data Mark : Type 0 where
  or_or and_and bang async_word : Mark

abbrev pub same_mark : Mark → Mark → Bool
same_mark or_or or_or = true
same_mark and_and and_and = true
same_mark bang bang = true
same_mark async_word async_word = true
same_mark _ _ = false

-- `syn::parse::ParseStream`: `peek`, `parse::<Token![…]>`, `parse::<Ident>` and `parenthesized!`.
pub record ParseStream : Type 1 where
  pub Stream : Type 0
  pub Ident : Type 0
  pub Error : Type 0
  pub peek : Mark → Stream → Bool
  pub peek_paren : Stream → Bool
  pub parse_mark : Mark → Stream → Result Stream Error
  pub parse_ident : Stream → Result (Ident × Stream) Error
  pub parenthesized : Stream → Result (Stream × Stream) Error
  -- How many tokens are left, those inside groups included: each of the calls above consumes some.
  pub size : Stream → ℕ
  pub parse_mark-size : (m : Mark) (s s' : Stream) → parse_mark m s ≡ ok s' → size s' < size s
  pub parse_ident-size : (s s' : Stream) (i : Ident) → parse_ident s ≡ ok (i, s') → size s' < size s
  pub parenthesized-size :
      (s content s' : Stream) → parenthesized s ≡ ok (content, s') → size content + size s' < size s

-- `quote!`: what a cursor sees of the tokens that it puts in front of a stream.
pub record Quote (p : ParseStream) : Type 0 where
  pub nothing : p.Stream
  pub put : Mark → p.Stream → p.Stream
  pub put_ident : p.Ident → p.Stream → p.Stream
  pub put_paren : p.Stream → p.Stream → p.Stream
  pub peek-nothing : (m : Mark) → p.peek m nothing ≡ false
  pub peek-put : (m n : Mark) (s : p.Stream) → p.peek m (put n s) ≡ same_mark m n
  pub peek-put_ident : (m : Mark) (i : p.Ident) (s : p.Stream) → p.peek m (put_ident i s) ≡ false
  pub peek-put_paren : (m : Mark) (c s : p.Stream) → p.peek m (put_paren c s) ≡ false
  pub peek_paren-put : (m : Mark) (s : p.Stream) → p.peek_paren (put m s) ≡ false
  pub peek_paren-put_ident : (i : p.Ident) (s : p.Stream) → p.peek_paren (put_ident i s) ≡ false
  pub peek_paren-put_paren : (c s : p.Stream) → p.peek_paren (put_paren c s) ≡ true
  pub parse_mark-put : (m : Mark) (s : p.Stream) → p.parse_mark m (put m s) ≡ ok s
  pub parse_ident-put : (i : p.Ident) (s : p.Stream) → p.parse_ident (put_ident i s) ≡ ok (i, s)
  pub parenthesized-put : (c s : p.Stream) → p.parenthesized (put_paren c s) ≡ ok (c, s)
