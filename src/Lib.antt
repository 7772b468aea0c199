-- ===== src/Lib.antt =====
-- LensLM answers questions about a notebook's sources. This library is about the text core of
-- lens-core: parsed blocks become chunks and an outline, an answer's markers become citations,
-- entities of several sources are resolved into one, and a dialogue script becomes scenes; besides,
-- the structural map of a source under its budget, the history of a chat, what a cloud
-- transcription sends, the tokens of the voice model and its download.
--
-- Base: the shared names; Base.Text is UTF-8 text as a list of scalar values with byte offsets, as
--   Rust's str slices it, and Base.Outcome a result that is ok, an error of lens-core/src/error.rs,
--   or a panic.
-- Chunk: lens-core/src/chunk.rs. Types has the rows, ids and the tokenizer, a function that counts
--   tokens or fails. Split is find_split and split_oversized, Parent is build_parent_windows and
--   what it calls, Child, Overlap and Retile the child level, and Pipeline is chunk_blocks. The
--   loops run on the bytes left as fuel: each round takes a byte at least. A slice at a byte that
--   is not a char boundary is a panic, as in Rust.
-- Section: lens-core/src/section.rs, build_sections, whose u32 counters are unbounded here.
-- Citation: lens-core/src/citation.rs. Markers is parse_markers, Extract extract_citations and
--   hydrate_locators, and Diagnosis citation_diag.
-- Tts: lens-core/src/tts. scene_chunks of chunk.rs; Snac is the codes of snac.rs, a stream of tokens
--   that becomes frames, and Orpheus the token loop, the retries and the voices of orpheus.rs. The
--   sampler, the cancel token and the f64 test of a short generation are parameters.
-- Resolution: lens-core/src/resolution/mod.rs. UnionFind is the disjoint-set forest, and Tiers the
--   three tiers of resolve_notebook, without assign_canonical. A find runs on the greatest rank as
--   fuel, since ranks rise along the parents.
-- Batching: lens-core/src/enrichment/batching.rs, batch_by_char_budget.
-- Enrichment: lens-core/src/enrichment. Budget and Meta are meta.rs, the counters of a job and a
--   session and the structural map with its bounds, Json is its extract_json_object, and Map is
--   map.rs: run_llm_with_retries and, in Build, build_structural_map. A job is a function on the budget
--   and the provider's state; the provider, serde_json and the nonce are parameters. Coref is coref.rs:
--   the bounds of a response and apply_substitutions, with each loop over the characters once for
--   each of its two offsets; the lowercase mapping is a parameter.
-- Chat: lens-core/src/chat.rs. Stored is a message and its row in the database, where a column is
--   missing if the driver cannot give it, and the conversion of sqlx::Error in error.rs; History is
--   history_messages, whose hash maps are functions.
-- Asr: lens-core/src/asr/cloud. Wav is pcm_to_wav, and Windows split_if_needed, whose loop has the
--   number of samples as fuel: a round takes one at least. f32 is a parameter.
-- Dialogue: lens-core/src/dialogue.rs. Script is a script, the presets and validate_script; Salvage is
--   preclean, extract_json_array, find_turns_array and parse_dialogue, where what serde reads is a
--   parameter; Generate is generate_dialogue, whose services and model answer by records, with the
--   loop over the repairs by the repairs left. The text of the first prompt is a parameter.
-- Retrieval: lens-core/src/retrieval. Structural is structural.rs, whose total of a roman numeral is kept
--   as what is added and what is taken off; the lowercase mapping and the alphanumeric test are
--   parameters. Fusion is rrf_merge3 of rrf.rs, for any order of its hash map,
--   and Trim is trim_and_order of router.rs, with the token estimate and the document order; std's
--   stable sort is an insertion sort.
-- Parse: lens-core/src/parse.rs. Text is parse_text, whose loops have the number of characters as fuel,
--   and Trail is SectionPathStack. The Markdown path is not modelled.
-- Download: lens-core/src/download.rs. Headers is the two header readers, Answers what one attempt is
--   answered and the steps it is made of, Attempt download_attempt with one function for each branch,
--   Call the loop over the attempts and download_verified_with.
--   The `.part` and the finished file are bytes or missing; each write changes them, and a failed
--   write may leave a part of its chunk. What the disk, the server, the space probe and the canceller
--   answer are records; what is on disk at each await is kept, and a cancelled call is dropped at one.
--   The loop goes by the attempts left.
-- Qwen: src-tauri/src/qwen/coordinator.rs. Prepare is QwenPrepareCoordinator as a step relation:
--   any number of calls, which interleave at their awaits.
-- Examples: runs at concrete inputs.
--
-- Numbers are unbounded where the code has usize and i64; the u32 counters of the budget saturate or
-- wrap, and the casts to u8 and u32 are written out. Parameters stand for the tokenizers crate,
-- SHA-256, UUIDs, the vector store, the language model, the lowercase mapping and f64 scores. Files,
-- SQL, HTTP and the rest of the desktop shell are not modelled.
pub mod Base
pub mod Chunk
pub mod Tts
pub mod Section
pub mod Citation
pub mod Retrieval
pub mod Resolution
pub mod Asr
pub mod Batching
pub mod Chat
pub mod Dialogue
pub mod Download
pub mod Enrichment
pub mod Parse
pub mod Qwen
pub mod Examples
