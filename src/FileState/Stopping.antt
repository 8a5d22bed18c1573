-- ===== src/FileState/Stopping.antt =====
-- What a collected file that cannot be read does to the update of the collected directories
-- (internal/mod/rule/file_state_handler/file_state_handler.go).
