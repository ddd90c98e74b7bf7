-- ===== src/Editor.antt =====
-- ember/editor: the editing session between the widget and the extension host.
pub mod Coords
