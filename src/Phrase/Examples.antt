-- ===== src/Phrase/Examples.antt =====
-- internal/notifier/presets.go: a text that is cut.
