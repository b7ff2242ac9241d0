-- ===== src/Config/Parser/Invariant.antt =====
-- What each round of the loop of `parse` keeps: the statements read so far are well formed.
use mathlib.Core.List.{reverse, reverse-cons}
use creeper_url_shortening_w.Config.{NginxConfigStatement, simple, block, empty, of_statements}
use creeper_url_shortening_w.Config.WellFormed.{
  AllTokens, IsTokens, IsStatement, is_simple, is_block, IsConfig, is_empty, is_item,
}
use creeper_url_shortening_w.Config.Token.{
  TokenType, start, normal, start_block, end_block, comment, statement_end, eof, error,
}
use creeper_url_shortening_w.Config.Token.Words.{IsToken}
use creeper_url_shortening_w.Config.Parser.{
  ParseResult, accepted, undefined, Round, next, stop, on_token, on_normal, push_to_back,
  on_statement_end, on_start_block, push_block, on_end_block, pop_block, on_eof, finish, state,
}
use creeper_url_shortening_w.Prelude.Text.{Bytes}
use creeper_url_shortening_w.Prelude.{◌≡◌, ◌≢◌, refl, List, [], ◌∷◌, ◌++◌}

abbrev pub AllStatements : List NginxConfigStatement → Type 0
AllStatements [] = Unit
AllStatements (s ∷ ss) = IsStatement s × AllStatements ss

-- A block whose last statement is being read, or has opened a block that is being read.
abbrev pub IsOpen : List NginxConfigStatement → Type 0
IsOpen [] = ⊥
IsOpen (simple ts ∷ ss) = IsTokens ts × AllStatements ss
IsOpen (block ts c ∷ ss) = ⊥

abbrev pub AllOpen : List (List NginxConfigStatement) → Type 0
AllOpen [] = Unit
AllOpen (b ∷ bs) = IsOpen b × AllOpen bs

abbrev pub IsFull : List NginxConfigStatement → Type 0
IsFull [] = ⊥
IsFull (s ∷ ss) = IsStatement s × AllStatements ss

-- What is known of the innermost block behind each type of token.
abbrev pub IsTop : TokenType → List NginxConfigStatement → Type 0
IsTop start top = AllStatements top
IsTop start_block top = AllStatements top
IsTop normal top = IsOpen top
IsTop statement_end top = IsFull top
IsTop end_block top = IsFull top
IsTop _ top = ⊥

-- The stack is empty only behind the brace that popped the config itself.
abbrev pub IsStack : List (List NginxConfigStatement) → TokenType → Type 0
IsStack [] last = last ≡ end_block
IsStack (top ∷ stack) last = IsTop last top × AllOpen stack

abbrev pub IsSound : List (List NginxConfigStatement) → ParseResult → Type 0
IsSound stack (accepted c) = IsConfig c × (c ≢ empty)
IsSound stack undefined = stack ≡ []
IsSound stack _ = Unit

abbrev pub IsRound : List (List NginxConfigStatement) → Round → Type 0
IsRound old (next stack last) = IsStack stack last
IsRound old (stop result) = IsSound old result

AllTokens-concat :
    (ts : List Bytes) (t : Bytes) → AllTokens ts → IsToken t → AllTokens (ts ++ t ∷ [])
AllTokens-concat [] t h k = (k, tt)
AllTokens-concat (u ∷ ts) t (l, h) k = (l, AllTokens-concat ts t h k)

IsTokens-concat : (ts : List Bytes) (t : Bytes) → IsTokens ts → IsToken t → IsTokens (ts ++ t ∷ [])
IsTokens-concat [] t h k = absurd h
IsTokens-concat (u ∷ ts) t (l, h) k = (l, AllTokens-concat ts t h k)

IsFull-AllStatements : (ss : List NginxConfigStatement) → IsFull ss → AllStatements ss
IsFull-AllStatements [] h = absurd h
IsFull-AllStatements (s ∷ ss) h = h

IsFull-of_IsOpen : (ss : List NginxConfigStatement) → IsOpen ss → IsFull ss
IsFull-of_IsOpen [] h = absurd h
IsFull-of_IsOpen (simple ts ∷ ss) (h, k) = (is_simple h, k)
IsFull-of_IsOpen (block ts c ∷ ss) h = absurd h

AllStatements-append :
    (xs ys : List NginxConfigStatement)
    → AllStatements xs
    → AllStatements ys
    → AllStatements (xs ++ ys)
AllStatements-append [] ys h k = k
AllStatements-append (x ∷ xs) ys (l, h) k = (l, AllStatements-append xs ys h k)

AllStatements-reverse :
    (xs : List NginxConfigStatement) → AllStatements xs → AllStatements (reverse xs)
AllStatements-reverse [] h = tt
AllStatements-reverse (x ∷ xs) (l, h) =
    rw reverse-cons
      (AllStatements-append (reverse xs) (x ∷ []) (AllStatements-reverse xs h) (l, tt))

IsConfig-of_statements :
    (xs : List NginxConfigStatement) → AllStatements xs → IsConfig (of_statements xs)
IsConfig-of_statements [] h = is_empty
IsConfig-of_statements (x ∷ xs) (l, h) = is_item l (IsConfig-of_statements xs h)

IsConfig-reverse :
    (xs : List NginxConfigStatement) → AllStatements xs → IsConfig (of_statements (reverse xs))
IsConfig-reverse xs h = IsConfig-of_statements (reverse xs) (AllStatements-reverse xs h)

of_statements-ne-empty :
    (xs : List NginxConfigStatement) (s : NginxConfigStatement)
    → of_statements (xs ++ s ∷ []) ≢ empty
of_statements-ne-empty [] s = cc
of_statements-ne-empty (x ∷ xs) s = cc

finish-IsSound :
    (top : List NginxConfigStatement) (stack : List (List NginxConfigStatement))
    → IsFull top
    → IsSound (top ∷ stack) (finish (top ∷ stack))
unfolding finish
finish-IsSound [] stack h = absurd h
finish-IsSound (s ∷ ss) [] (h, k) =
    (IsConfig-reverse (s ∷ ss) (h, k), rw reverse-cons (of_statements-ne-empty (reverse ss) s))
finish-IsSound (s ∷ ss) (top' ∷ stack) h = tt

pop-IsRound :
    (top : List NginxConfigStatement) (stack : List (List NginxConfigStatement))
    → AllStatements top
    → AllOpen stack
    → IsRound (top ∷ stack) (pop_block (top ∷ stack))
unfolding pop_block
pop-IsRound top [] h k = refl
pop-IsRound top ([] ∷ stack) h (k, l) = absurd k
pop-IsRound top ((simple ts ∷ ss) ∷ stack) h ((k, m), l) =
    ((is_block k (IsConfig-reverse top h), m), l)
pop-IsRound top ((block ts c ∷ ss) ∷ stack) h (k, l) = absurd k

push_block-IsRound :
    (top : List NginxConfigStatement) (stack : List (List NginxConfigStatement))
    → IsOpen top
    → AllOpen stack
    → IsRound (top ∷ stack) (push_block (top ∷ stack))
unfolding push_block
push_block-IsRound [] stack h k = absurd h
push_block-IsRound (s ∷ ss) stack h k = (tt, (h, k))

module _ (t : Bytes) (read : IsToken t) where
  first-IsRound :
      (top : List NginxConfigStatement) (stack : List (List NginxConfigStatement))
      → AllStatements top
      → AllOpen stack
      → IsRound (top ∷ stack) (push_to_back stack (simple [] ∷ top) t)
  unfolding push_to_back
  first-IsRound top stack h k = (((read, tt), h), k)

  more-IsRound :
      (top : List NginxConfigStatement) (stack : List (List NginxConfigStatement))
      → IsOpen top
      → AllOpen stack
      → IsRound (top ∷ stack) (push_to_back stack top t)
  unfolding push_to_back
  more-IsRound [] stack h k = absurd h
  more-IsRound (simple ts ∷ ss) stack (h, l) k = ((IsTokens-concat ts t h read, l), k)
  more-IsRound (block ts c ∷ ss) stack h k = absurd h

  on_normal-IsRound :
      (stack : List (List NginxConfigStatement)) (last : TokenType)
      → IsStack stack last
      → IsRound stack (on_normal stack last t)
  unfolding on_normal
  on_normal-IsRound [] last h = rw h refl
  on_normal-IsRound (top ∷ stack) start (h, k) = first-IsRound top stack h k
  on_normal-IsRound (top ∷ stack) start_block (h, k) = first-IsRound top stack h k
  on_normal-IsRound (top ∷ stack) statement_end (h, k) =
      first-IsRound top stack (IsFull-AllStatements top h) k
  on_normal-IsRound (top ∷ stack) end_block (h, k) =
      first-IsRound top stack (IsFull-AllStatements top h) k
  on_normal-IsRound (top ∷ stack) normal (h, k) = more-IsRound top stack h k
  on_normal-IsRound (top ∷ stack) _ (h, k) = absurd h

on_end_block-IsRound :
    (stack : List (List NginxConfigStatement)) (last : TokenType)
    → IsStack stack last
    → IsRound stack (on_end_block stack last)
unfolding on_end_block
on_end_block-IsRound [] last h = rw h refl
on_end_block-IsRound (top ∷ stack) start (h, k) = tt
on_end_block-IsRound (top ∷ stack) normal (h, k) = tt
on_end_block-IsRound (top ∷ stack) start_block (h, k) = pop-IsRound top stack h k
on_end_block-IsRound (top ∷ stack) statement_end (h, k) =
    pop-IsRound top stack (IsFull-AllStatements top h) k
on_end_block-IsRound (top ∷ stack) end_block (h, k) =
    pop-IsRound top stack (IsFull-AllStatements top h) k
on_end_block-IsRound (top ∷ stack) _ (h, k) = absurd h

on_start_block-IsRound :
    (stack : List (List NginxConfigStatement)) (last : TokenType)
    → IsStack stack last
    → IsRound stack (on_start_block stack last)
unfolding on_start_block
on_start_block-IsRound [] last h = rw h tt
on_start_block-IsRound (top ∷ stack) normal (h, k) = push_block-IsRound top stack h k
on_start_block-IsRound (top ∷ stack) _ (h, k) = tt

on_statement_end-IsRound :
    (stack : List (List NginxConfigStatement)) (last : TokenType)
    → IsStack stack last
    → IsRound stack (on_statement_end stack last)
unfolding on_statement_end
on_statement_end-IsRound [] last h = rw h tt
on_statement_end-IsRound (top ∷ stack) normal (h, k) = (IsFull-of_IsOpen top h, k)
on_statement_end-IsRound (top ∷ stack) _ (h, k) = tt

on_eof-IsRound :
    (stack : List (List NginxConfigStatement)) (last : TokenType)
    → IsStack stack last
    → IsRound stack (on_eof stack last)
unfolding on_eof
on_eof-IsRound [] last h = rw h (unfold finish in tt)
on_eof-IsRound (top ∷ stack) statement_end (h, k) = finish-IsSound top stack h
on_eof-IsRound (top ∷ stack) end_block (h, k) = finish-IsSound top stack h
on_eof-IsRound (top ∷ stack) _ (h, k) = tt

pub on_token-IsRound :
    (stack : List (List NginxConfigStatement)) (last type : TokenType) (t : Bytes)
    → IsStack stack last
    → (type ≡ normal → IsToken t)
    → IsRound stack (on_token (state stack last) type t)
unfolding on_token
on_token-IsRound stack last start t h k = tt
on_token-IsRound stack last error t h k = tt
on_token-IsRound stack last comment t h k = h
on_token-IsRound stack last normal t h k = on_normal-IsRound t (k refl) stack last h
on_token-IsRound stack last statement_end t h k = on_statement_end-IsRound stack last h
on_token-IsRound stack last start_block t h k = on_start_block-IsRound stack last h
on_token-IsRound stack last end_block t h k = on_end_block-IsRound stack last h
on_token-IsRound stack last eof t h k = on_eof-IsRound stack last h
