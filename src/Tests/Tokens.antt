-- ===== src/Tests/Tokens.antt =====
-- Tokens and groups of tokens: a cursor and a printer of the kind that the parsers take.
use sml_rs.Base.{ℕ, suc, ◌+◌, ◌<◌, ◌≡◌, refl, Bool, true, false, Result, ok, err, arith}
use sml_rs.Parser.Stream.{Mark, or_or, and_and, bang, async_word, same_mark, ParseStream, Quote}

mutual
  pub data Token : Type 0 where
    mark : Mark → Token
    name : ℕ → Token
    parens : Tokens → Token

  pub data Tokens : Type 0 where
    nil : Tokens
    cons : Token → Tokens → Tokens

abbrev mutual
  pub token_size : Token → ℕ
  token_size (mark m) = 1
  token_size (name i) = 1
  token_size (parens ts) = suc (size ts)

  pub size : Tokens → ℕ
  size nil = 0
  size (cons t ts) = token_size t + size ts

-- The error is that of an unexpected token.
pub data Unexpected : Type 0 where
  unexpected_token : Unexpected

abbrev pub peek : Mark → Tokens → Bool
peek m (cons (mark n) ts) = same_mark m n
peek m _ = false

abbrev pub peek_paren : Tokens → Bool
peek_paren (cons (parens c) ts) = true
peek_paren _ = false

abbrev pub parse_mark : Mark → Tokens → Result Tokens Unexpected
parse_mark m (cons (mark n) ts) = elim (same_mark m n) [
  | true ↦ ok ts
  | false ↦ err unexpected_token
]
parse_mark m _ = err unexpected_token

abbrev pub parse_ident : Tokens → Result (ℕ × Tokens) Unexpected
parse_ident (cons (name i) ts) = ok (i, ts)
parse_ident _ = err unexpected_token

abbrev pub parenthesized : Tokens → Result (Tokens × Tokens) Unexpected
parenthesized (cons (parens c) ts) = ok (c, ts)
parenthesized _ = err unexpected_token

pub parse_mark-size : (m : Mark) (s s' : Tokens) → parse_mark m s ≡ ok s' → size s' < size s
parse_mark-size m (cons (mark n) ts) s' h = ground arith
parse_mark-size m nil s' h = cc
parse_mark-size m (cons (name i) ts) s' h = cc
parse_mark-size m (cons (parens c) ts) s' h = cc

pub parse_ident-size : (s s' : Tokens) (i : ℕ) → parse_ident s ≡ ok (i, s') → size s' < size s
parse_ident-size (cons (name j) ts) s' i h = ground arith
parse_ident-size nil s' i h = cc
parse_ident-size (cons (mark n) ts) s' i h = cc
parse_ident-size (cons (parens c) ts) s' i h = cc

pub parenthesized-size :
    (s c s' : Tokens) → parenthesized s ≡ ok (c, s') → size c + size s' < size s
parenthesized-size (cons (parens d) ts) c s' h = ground arith
parenthesized-size nil c s' h = cc
parenthesized-size (cons (mark n) ts) c s' h = cc
parenthesized-size (cons (name i) ts) c s' h = cc

pub parse_mark-put : (m : Mark) (s : Tokens) → parse_mark m (cons (mark m) s) ≡ ok s
parse_mark-put or_or s = refl
parse_mark-put and_and s = refl
parse_mark-put bang s = refl
parse_mark-put async_word s = refl

abbrev pub cursor : ParseStream
cursor = record {
  Stream = Tokens;
  Ident = ℕ;
  Error = Unexpected;
  peek = peek;
  peek_paren = peek_paren;
  parse_mark = parse_mark;
  parse_ident = parse_ident;
  parenthesized = parenthesized;
  size = size;
  parse_mark-size = parse_mark-size;
  parse_ident-size = parse_ident-size;
  parenthesized-size = parenthesized-size;
}

abbrev pub printer : Quote cursor
printer = record {
  nothing = nil;
  put = λ m s. cons (mark m) s;
  put_ident = λ i s. cons (name i) s;
  put_paren = λ c s. cons (parens c) s;
  peek-nothing = λ m. refl;
  peek-put = λ m n s. refl;
  peek-put_ident = λ m i s. refl;
  peek-put_paren = λ m c s. refl;
  peek_paren-put = λ m s. refl;
  peek_paren-put_ident = λ i s. refl;
  peek_paren-put_paren = λ c s. refl;
  parse_mark-put = parse_mark-put;
  parse_ident-put = λ i s. refl;
  parenthesized-put = λ c s. refl;
}
