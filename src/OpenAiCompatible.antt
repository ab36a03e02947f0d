-- ===== src/OpenAiCompatible.antt =====
-- The adapter that OpenAI, Mistral, DeepSeek and compatible targets share
-- (src/openai_compatible.rs), in the modules below.
mod Tests
pub mod Native
pub mod Decoder
pub mod Encode
pub mod Adapter
