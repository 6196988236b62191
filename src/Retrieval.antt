-- ===== src/Retrieval.antt =====
-- app/retrieval: the hard filters, the tokens, the scores and the retrieval.
pub mod Filters
pub mod Tokens
pub mod Scores
pub mod Retriever
