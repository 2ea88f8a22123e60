-- ===== src/Media.antt =====
-- app/social: what serves the bytes of posts and stories.
pub mod ByteRange
