-- ===== src/Bridge.antt =====
-- app/bridge_json.h: the JSON of the bridge between the page and the native side. A string is the
-- list of its bytes, and the pair of a string and an index is the rest of the string from there.
pub mod Text
pub mod Object
pub mod Getters
pub mod Numbers
