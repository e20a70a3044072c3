-- ===== src/Query/Tokens.antt =====
-- include/vectortick/query/token.hpp: enum class TokenType.
pub data TokenType : Type 0 where
  eof integer_literal identifier : TokenType
  select from where_clause let_clause group by agg order limit and or not true false : TokenType
  tumble as_alias asc desc count sum min max avg : TokenType
  plus minus star slash percent equal not_equal less less_equal greater greater_equal : TokenType
  amp_amp pipe_pipe bang amp pipe caret : TokenType
  l_paren r_paren comma semicolon error : TokenType
